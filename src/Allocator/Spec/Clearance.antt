-- ===== src/Allocator/Spec/Clearance.antt =====
-- What is clear of the free list stays clear of what `first_fit` and `give` make of it.
use eitan_os.Base.{
  ℕ, ◌+◌, ◌-◌, ◌≤◌, ◌<◌, ◌≡◌, ◌⊎◌, inl, inr, true, false, Option, none, some, List, [], ◌∷◌, leb,
  ltb, ltb→lt, arith, Bool-cases, length,
}
use eitan_os.Allocator.Spec.{Span, Clear, remainder, granted, keep, first_fit, join, give}
use eitan_os.Allocator.Spec.Laws.{give_later, give_here, give_nil}

-- What is clear of the free blocks is clear of the block taken and of the blocks that remain.
abbrev pub Shrinks : List Span → Option (Span × List Span) → Type 0
Shrinks bs none = Unit
Shrinks bs (some ((a, g), bs')) =
    (x k : ℕ) → 0 < k → Clear x k bs → ((x + k ≤ a) ⊎ (a + g ≤ x)) × Clear x k bs'

pub first_fit-Shrinks : (n : ℕ) (bs : List Span) → Shrinks bs (first_fit n bs)
unfolding first_fit
first_fit-Shrinks n [] = tt
first_fit-Shrinks n ((a, s) ∷ bs) = elim (Bool-cases (leb n s)) [
  | inl fits ↦ rw fits (taken (Bool-cases (leb 24 (s - n))))
  | inr small ↦ rw small (kept (first_fit n bs) (first_fit-Shrinks n bs))
]
  where
    taken :
        ((leb 24 (s - n) ≡ true) ⊎ (leb 24 (s - n) ≡ false))
        → Shrinks ((a, s) ∷ bs) (some ((a, granted n s), remainder n a s bs))
    taken (inl big) = rw big (λ x k pos out. (ground arith, (ground arith, out.1)))
    taken (inr all) = rw all (λ x k pos out. (out.0, out.1))

    kept : (r : Option (Span × List Span)) → Shrinks bs r → Shrinks ((a, s) ∷ bs) (keep (a, s) r)
    kept none sh = tt
    kept (some ((b, g), bs')) sh =
        λ x k pos out. let (apart, rest) = sh x k pos out.1 in (apart, (out.0, rest))

join-Clear :
    (x k a s : ℕ) (bs : List Span)
    → 0 < k
    → (x + k ≤ a) ⊎ (a + s ≤ x)
    → Clear x k bs
    → Clear x k (join (a, s) bs)
unfolding join
join-Clear x k a s [] pos apart out = (apart, tt)
join-Clear x k a s ((b, n) ∷ bs) pos apart out = ground arith

-- What is clear of the free blocks and of a block is clear of the free blocks with it given back.
pub give-Clear :
    (x k b n : ℕ) (bs : List Span)
    → 0 < k
    → (x + k ≤ b) ⊎ (b + n ≤ x)
    → Clear x k bs
    → Clear x k (give (b, n) bs)
give-Clear x k b n [] pos apart out = rw (give_nil b n) (join-Clear x k b n [] pos apart tt)
give-Clear x k b n ((a, s) ∷ bs) pos apart out = elim (Bool-cases (ltb a b)) [
  | inl before ↦
      rw (give_later b n a s bs (ltb→lt a b before))
        (join-Clear x k a s (give (b, n) bs) pos out.0 (give-Clear x k b n bs pos apart out.1))
  | inr behind ↦
      rw (give_here b n a s bs (ground arith)) (join-Clear x k b n ((a, s) ∷ bs) pos apart out)
]

-- First fit does not lengthen the free list.
abbrev pub NoLonger : List Span → Option (Span × List Span) → Type 0
NoLonger bs none = Unit
NoLonger bs (some (got, bs')) = length bs' ≤ length bs

pub first_fit-NoLonger : (n : ℕ) (bs : List Span) → NoLonger bs (first_fit n bs)
unfolding first_fit
first_fit-NoLonger n [] = tt
first_fit-NoLonger n ((a, s) ∷ bs) = elim (Bool-cases (leb n s)) [
  | inl fits ↦ rw fits (ground arith)
  | inr small ↦ rw small (kept (first_fit n bs) (first_fit-NoLonger n bs))
]
  where
    kept : (r : Option (Span × List Span)) → NoLonger bs r → NoLonger ((a, s) ∷ bs) (keep (a, s) r)
    kept none l = tt
    kept (some (got, bs')) l = omega arith
