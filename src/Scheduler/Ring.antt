-- ===== src/Scheduler/Ring.antt =====
-- The circular list of processes as a list of pointers.
use eitan_os.Base.{
  ℕ, zero, suc, ◌<◌, ◌≡◌, ◌≢◌, ◌⊎◌, refl, sym, ap, subst, ◌∙◌, inl, inr, ==_refl, Bool, true, false,
  ◌==◌, if◌then◌else◌, List, [], ◌∷◌, ◌++◌, All, All-append, All-parts, arith, length, Bool-cases,
  ne→==, ==→eq,
}
use eitan_os.Allocator.{Run, done}
use eitan_os.Scheduler.{Process, store, circle}

pub store_self : (procs : ℕ → Process) (p : ℕ) (x : Process) → store procs p x p ≡ x
store_self procs p x = ap (λ b. if b then x else procs p) (==_refl p)

pub store_other :
    (procs : ℕ → Process) (p q : ℕ) (x : Process) → q ≢ p → store procs p x q ≡ procs q
store_other procs p q x apart = ap (λ b. if b then x else procs q) (ne→== q p apart)

-- A write that leaves a field as it is leaves it so for every process.
pub store_field {ℓ} :
    {B : Type ℓ} (f : Process → B) (procs : ℕ → Process) (p : ℕ) (x : Process)
    → f x ≡ f (procs p)
    → (q : ℕ) → f (store procs p x q) ≡ f (procs q)
store_field f procs p x same q = elim (Bool-cases (q == p)) [
  | inl e ↦
      ap (λ b. f (if b then x else procs q)) e ∙ same ∙ ap (λ z. f (procs z)) (sym (==→eq q p e))
  | inr e ↦ ap (λ b. f (if b then x else procs q)) e
]

-- Following `next` from `a` meets the pointers of the list and then `b`.
abbrev pub Follows : (ℕ → Process) → ℕ → List ℕ → ℕ → Type 0
Follows procs a [] b = a ≡ b
Follows procs a (p ∷ ps) b = (a ≡ p) × Follows procs (procs p).next ps b

abbrev pub OtherPid : (ℕ → Process) → ℕ → ℕ → Type 0
OtherPid procs p q = (procs q).pid ≢ (procs p).pid

-- No two of the processes have the same identifier.
abbrev pub Distinct : (ℕ → Process) → List ℕ → Type 0
Distinct procs [] = Unit
Distinct procs (p ∷ ps) = All (OtherPid procs p) ps × Distinct procs ps

-- The processes of the list, and no others, stand on the circle from `a`.
pub record IsLoop (procs : ℕ → Process) (a : ℕ) (ps : List ℕ) : Type 0 where
  pub path : Follows procs a ps a
  pub distinct : Distinct procs ps

module _ (procs : ℕ → Process) where
  pub Follows-join :
      (a b c : ℕ) (xs ys : List ℕ)
      → Follows procs a xs b
      → Follows procs b ys c
      → Follows procs a (xs ++ ys) c
  Follows-join a b c [] ys p q = subst (λ z. Follows procs z ys c) (sym p) q
  Follows-join a b c (x ∷ xs) ys (e, p) q = (e, Follows-join (procs x).next b c xs ys p q)

  pub Follows-parts :
      (a c : ℕ) (xs ys : List ℕ)
      → Follows procs a (xs ++ ys) c
      → (b : ℕ) × Follows procs a xs b × Follows procs b ys c
  Follows-parts a c [] ys p = (a, refl, p)
  Follows-parts a c (x ∷ xs) ys (e, p) =
      let (b, l, r) = Follows-parts (procs x).next c xs ys p in (b, (e, l), r)

  Distinct-parts :
      (xs ys : List ℕ)
      → Distinct procs (xs ++ ys)
      → Distinct procs xs × Distinct procs ys × All (λ y. All (λ x. OtherPid procs y x) xs) ys
  Distinct-parts [] ys d = (tt, d, units ys)
    where
      units : (zs : List ℕ) → All (λ y. All (λ x. OtherPid procs y x) []) zs
      units [] = tt
      units (z ∷ zs) = (tt, units zs)
  Distinct-parts (x ∷ xs) ys (one, d) =
      let (dx, dy, apart) = Distinct-parts xs ys d in
      let (ox, oy) = All-parts (OtherPid procs x) xs ys one in ((ox, dx), dy, widen ys oy apart)
    where
      widen :
          (zs : List ℕ)
          → All (OtherPid procs x) zs
          → All (λ y. All (λ x. OtherPid procs y x) xs) zs
          → All (λ y. All (λ x. OtherPid procs y x) (x ∷ xs)) zs
      widen [] o a = tt
      widen (z ∷ zs) (o, outs) (a, others) = ((λ e. o (sym e), a), widen zs outs others)

  Distinct-join :
      (ys xs : List ℕ)
      → Distinct procs ys
      → Distinct procs xs
      → All (λ y. All (λ x. OtherPid procs y x) xs) ys
      → Distinct procs (ys ++ xs)
  Distinct-join [] xs dy dx apart = dx
  Distinct-join (y ∷ ys) xs (one, dy) dx (a, apart) =
      (All-append (OtherPid procs y) ys xs one a, Distinct-join ys xs dy dx apart)

  pub Distinct-swap : (xs ys : List ℕ) → Distinct procs (xs ++ ys) → Distinct procs (ys ++ xs)
  Distinct-swap xs ys d =
      let (dx, dy, apart) = Distinct-parts xs ys d in Distinct-join ys xs dy dx apart

  -- A circle can be begun at any of its processes.
  pub IsLoop-swap :
      (a q : ℕ) (xs ys : List ℕ) → IsLoop procs a (xs ++ q ∷ ys) → IsLoop procs q (q ∷ ys ++ xs)
  IsLoop-swap a q xs ys loop =
      let (b, l, (e, r)) = Follows-parts a a xs (q ∷ ys) loop.path in
      record {
        path = (refl, Follows-join _ a q ys xs r (subst (Follows procs a xs) e l));
        distinct = Distinct-swap xs (q ∷ ys) loop.distinct;
      }

-- A walk on the circle stops at the first process that is meant, or comes back to where it began.
abbrev pub Circled : (ℕ → Bool) → ℕ → List ℕ → Run ℕ → Type 0
Circled hit first ps r =
    ((before : List ℕ) × (q : ℕ) × (after : List ℕ) × (ps ≡ before ++ q ∷ after)
      × (hit q ≡ true)
      × (r ≡ done q))
    ⊎ (All (λ p. hit p ≡ false) ps × (r ≡ done first))

Circled-cons :
    (hit : ℕ → Bool) (first p : ℕ) (ps : List ℕ) (r : Run ℕ)
    → hit p ≡ false
    → Circled hit first ps r
    → Circled hit first (p ∷ ps) r
Circled-cons hit first p ps r miss (inl (before, q, after, e, meant, run)) =
    inl (p ∷ before, q, after, ap (λ l. p ∷ l) e, meant, run)
Circled-cons hit first p ps r miss (inr (none, run)) = inr ((miss, none), run)

circle_on :
    (fuel : ℕ) (hit : ℕ → Bool) (procs : ℕ → Process) (first p q : ℕ)
    → hit p ≡ false
    → (procs p).next ≡ q
    → q ≢ first
    → circle fuel hit procs first q ≡ circle (suc fuel) hit procs first p
unfolding circle
circle_on fuel hit procs first p q miss e apart =
    ground (arith, miss, e, apart, ap (circle fuel hit procs first) e)

pub circle_lem :
    (fuel : ℕ) (hit : ℕ → Bool) (procs : ℕ → Process) (first p : ℕ) (ps : List ℕ)
    → Follows procs (procs p).next ps first
    → All (λ q. q ≢ first) ps
    → length ps < fuel
    → Circled hit first (p ∷ ps) (circle fuel hit procs first p)
unfolding circle
circle_lem zero hit procs first p ps path other f = elim f [ ]
circle_lem (suc fuel) hit procs first p [] e u f = elim (Bool-cases (hit p)) [
  | inl meant ↦ inl ([], p, [], refl, meant, ground (arith, meant))
  | inr miss ↦ inr ((miss, tt), ground (arith, e, miss))
]
circle_lem (suc fuel) hit procs first p (q ∷ qs) (e, on) (apart, u) f =
    let rest = circle_lem fuel hit procs first q qs on u (omega (arith, f)) in
    elim (Bool-cases (hit p)) [
      | inl meant ↦ inl ([], p, q ∷ qs, refl, meant, ground (arith, meant))
      | inr miss ↦
          subst (Circled hit first (p ∷ q ∷ qs)) (circle_on fuel hit procs first p q miss e apart)
            (Circled-cons hit first p (q ∷ qs) _ miss rest)
    ]
