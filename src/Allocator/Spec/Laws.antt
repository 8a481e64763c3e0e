-- ===== src/Allocator/Spec/Laws.antt =====
-- The laws of the free list: what `first_fit` and `give` keep, and that they undo one another.
use mathlib.Core.Path.{subst, sym, ap, ◌∙◌}
use eitan_os.Base.{
  ℕ, suc, ◌+◌, ◌-◌, ◌≤◌, ◌<◌, ◌≡◌, refl, inl, inr, false, Option, none, some, List, [], ◌∷◌, ◌==◌,
  leb, ltb, lt→ltb, ltb→lt, arith, Bool-cases, All,
}
use eitan_os.Allocator.Spec.{
  Span, Spaced, Clear, remainder, granted, keep, first_fit, join, give, total,
}

-- What first fit promises of its answer: a block of at least `n` bytes that is apart from the blocks
-- that remain, which are again a free list and hold the other bytes.
abbrev pub Fitted : ℕ → ℕ → ℕ → List Span → Option (Span × List Span) → Type 0
Fitted top lo n bs none = All (λ (a, s). s < n) bs
Fitted top lo n bs (some ((a, g), bs')) =
    (n ≤ g)
    × (lo ≤ a)
    × (a + g ≤ top)
    × Spaced top lo bs'
    × Clear a g bs'
    × (total bs ≡ g + total bs')
    × (give (a, g) bs' ≡ bs)

-- Blocks from `lo` on are clear of what ends before.
pub Spaced-Clear : (top lo a g : ℕ) (bs : List Span) → Spaced top lo bs → a + g ≤ lo → Clear a g bs
Spaced-Clear top lo a g [] sp h = tt
Spaced-Clear top lo a g ((b, s) ∷ bs) sp h =
    (inl (omega arith), Spaced-Clear top (suc (b + s)) a g bs sp.3 (omega arith))

pub Spaced-mono : (top lo hi : ℕ) (bs : List Span) → Spaced top hi bs → lo ≤ hi → Spaced top lo bs
Spaced-mono top lo hi [] sp h = tt
Spaced-mono top lo hi ((b, s) ∷ bs) sp h = (omega arith, sp.1, sp.2, sp.3)

-- In front of blocks that it does not touch, a block is put back as it is.
give_front :
    (top a g : ℕ) (bs : List Span) → Spaced top (suc (a + g)) bs → give (a, g) bs ≡ (a, g) ∷ bs
unfolding give join
give_front top a g [] sp = refl
give_front top a g ((b, s) ∷ bs) sp = ground arith

-- The front of a block is joined with its rest.
give_split :
    (a n s : ℕ) (bs : List Span) → 0 < n → n ≤ s → give (a, n) ((a + n, s - n) ∷ bs) ≡ (a, s) ∷ bs
unfolding give join
give_split a n s bs pos fits = ground arith

taken_Fitted :
    (top lo n a s : ℕ) (bs : List Span)
    → 0 < n
    → n ≤ s
    → Spaced top lo ((a, s) ∷ bs)
    → Fitted top lo n ((a, s) ∷ bs) (some ((a, granted n s), remainder n a s bs))
unfolding total
taken_Fitted top lo n a s bs pos fits sp = elim (Bool-cases (leb 24 (s - n))) [
  | inl split ↦
      let end : a + n + (s - n) ≡ a + s = omega arith in
      let tail = subst (λ e. Spaced top (suc e) bs) (sym end) sp.3 in
      rw split (
        omega arith,
        sp.0,
        omega arith,
        (omega arith, ground arith, omega arith, tail),
        (inl (omega arith), Spaced-Clear top (suc (a + s)) a n bs sp.3 (omega arith)),
        omega arith,
        give_split a n s bs pos fits,
      )
  | inr whole ↦ rw whole (
    fits,
    sp.0,
    sp.2,
    Spaced-mono top lo (suc (a + s)) bs sp.3 (omega arith),
    Spaced-Clear top (suc (a + s)) a s bs sp.3 (omega arith),
    refl,
    give_front top a s bs sp.3,
  )
]

pub give_nil : (b n : ℕ) → give (b, n) [] ≡ join (b, n) []
unfolding give join
give_nil b n = refl

pub give_later :
    (b n a s : ℕ) (bs : List Span)
    → a < b
    → give (b, n) ((a, s) ∷ bs) ≡ join (a, s) (give (b, n) bs)
unfolding give
give_later b n a s bs h = rw (lt→ltb a b h)

pub give_here :
    (b n a s : ℕ) (bs : List Span) → b ≤ a → give (b, n) ((a, s) ∷ bs) ≡ join (b, n) ((a, s) ∷ bs)
unfolding give
give_here b n a s bs h = let stop : ltb a b ≡ false = ground arith in rw stop

pub join_apart :
    (top a s : ℕ) (bs : List Span) → Spaced top (suc (a + s)) bs → join (a, s) bs ≡ (a, s) ∷ bs
unfolding join
join_apart top a s [] sp = refl
join_apart top a s ((b, n) ∷ bs) sp = ground arith

-- A block that does not fit stays in front of what first fit makes of the others.
kept_Fitted :
    (top lo n a s : ℕ) (bs : List Span) (r : Option (Span × List Span))
    → s < n
    → Spaced top lo ((a, s) ∷ bs)
    → Fitted top (suc (a + s)) n bs r
    → Fitted top lo n ((a, s) ∷ bs) (keep (a, s) r)
unfolding total
kept_Fitted top lo n a s bs none small sp f = (small, f)
kept_Fitted top lo n a s bs (some ((b, g), bs')) small sp f = (
  f.0,
  omega arith,
  f.2,
  (sp.0, sp.1, sp.2, f.3),
  (inr (omega arith), f.4),
  omega arith,
  give_behind,
)
  where
    give_behind : give (b, g) ((a, s) ∷ bs') ≡ (a, s) ∷ bs
    give_behind =
        give_later b g a s bs' (omega arith) ∙ ap (join (a, s)) f.6 ∙ join_apart top a s bs sp.3

pub first_fit-Fitted :
    (top n lo : ℕ) (bs : List Span) → 0 < n → Spaced top lo bs → Fitted top lo n bs (first_fit n bs)
unfolding first_fit
first_fit-Fitted top n lo [] pos sp = tt
first_fit-Fitted top n lo ((a, s) ∷ bs) pos sp = elim (Bool-cases (leb n s)) [
  | inl fits ↦ rw fits (taken_Fitted top lo n a s bs pos (ground arith) sp)
  | inr small ↦ rw small (
      kept_Fitted top lo n a s bs (first_fit n bs) (ground arith) sp
        (first_fit-Fitted top n (suc (a + s)) bs pos sp.3))
]

-- What holds of the free list once a block of `n` bytes has come back to it.
abbrev pub Given : ℕ → ℕ → ℕ → List Span → List Span → Type 0
Given top lo n bs r = Spaced top lo r × (total r ≡ n + total bs)

pub join-Given :
    (top lo a s : ℕ) (bs : List Span)
    → lo ≤ a
    → 0 < s
    → a + s ≤ top
    → Spaced top (a + s) bs
    → Given top lo s bs (join (a, s) bs)
unfolding join total
join-Given top lo a s [] h pos fits sp = ((h, pos, fits, tt), refl)
join-Given top lo a s ((b, n) ∷ bs) h pos fits sp = elim (Bool-cases ((a + s) == b)) [
  | inl touch ↦
      let end : b + n ≡ a + (s + n) = ground arith in
      rw touch
        ((h, omega arith, ground arith, subst (λ e. Spaced top (suc e) bs) end sp.3), omega arith)
  | inr apart ↦ rw apart ((h, pos, fits, (ground arith, sp.1, sp.2, sp.3)), refl)
]

-- Giving back a block that is clear of the free blocks keeps them sorted, apart and joined, and adds
-- its bytes.
pub give-Given :
    (top b n lo : ℕ) (bs : List Span)
    → Spaced top lo bs
    → Clear b n bs
    → lo ≤ b
    → 0 < n
    → b + n ≤ top
    → Given top lo n bs (give (b, n) bs)
unfolding total give
give-Given top b n lo [] sp clear h pos fits = give_nil
  where
    give_nil : Given top lo n [] (give (b, n) [])
    give_nil = ((h, pos, fits, tt), refl)
give-Given top b n lo ((a, s) ∷ bs) sp clear h pos fits = elim (Bool-cases (ltb a b)) [
  | inl before ↦
      let under : a < b = ltb→lt a b before in
      let after : a + s ≤ b = ground arith in
      let rest = Spaced-mono top (a + s) (suc (a + s)) bs sp.3 (omega arith) in
      let (sp', count) = give-Given top b n (a + s) bs rest clear.1 after pos fits in
      let (joined, sum) = join-Given top lo a s (give (b, n) bs) sp.0 sp.1 sp.2 sp' in
      rw (give_later b n a s bs under) (joined, omega arith)
  | inr behind ↦
      let under : b + n ≤ a = ground arith in
      rw (give_here b n a s bs (omega arith))
        (join-Given top lo b n ((a, s) ∷ bs) h pos fits (under, sp.1, sp.2, sp.3))
]
