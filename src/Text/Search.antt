-- ===== src/Text/Search.antt =====
-- `strchr` finds the first place of a byte and `strrchr` the last one.
use eitan_os.Base.{
  ℕ, ◌+◌, ◌%◌, ◌≡◌, ◌≢◌, ◌⊎◌, refl, sym, ap, subst, ◌∙◌, inl, inr, ◌==◌, if◌then◌else◌, List, [],
  ◌∷◌, ◌++◌, All, length, Option, none, some, arith, Bool-cases, ==→eq, ==→ne, ne→==,
}
use eitan_os.Text.{strchr, strchr_loop, strrchr, strrchr_loop}
use eitan_os.Text.Compare.{NonZero, c_string}

abbrev pub Other : ℕ → ℕ → Type 0
Other target c = c ≢ target

-- The result points to the first place of the byte, or is null and there is none.
abbrev pub First : ℕ → ℕ → List ℕ → Option (Option ℕ) → Type 0
First at target bytes r =
    ((before after : List ℕ) × (bytes ≡ before ++ target ∷ after)
      × All (Other target) before
      × (r ≡ some (some (at + length before))))
    ⊎ (All (Other target) bytes × (r ≡ some none))

First-cons :
    (at target c : ℕ) (bytes : List ℕ) (r : Option (Option ℕ))
    → c ≢ target
    → First (at + 1) target bytes r
    → First at target (c ∷ bytes) r
First-cons at target c bytes r other (inl (before, after, e, apart, run)) = inl (
  c ∷ before,
  after,
  ap (λ l. c ∷ l) e,
  (other, apart),
  run ∙ ap (λ n. some (some n)) (omega arith),
)
First-cons at target c bytes r other (inr (apart, run)) = inr ((other, apart), run)

strchr_loop-First :
    (at target : ℕ) (text behind : List ℕ)
    → All NonZero text
    → First at target (text ++ 0 ∷ []) (strchr_loop at (c_string text behind) target)
unfolding strchr_loop
strchr_loop-First at target [] behind ok = elim (Bool-cases (target == 0)) [
  | inl e ↦ inl (
    [],
    [],
    ap (λ z. z ∷ []) (sym (==→eq target 0 e)),
    tt,
    ap (λ b. some (if b then some at else none)) e ∙ ap (λ n. some (some n)) (omega arith),
  )
  | inr e ↦
      inr
        ((λ same. ==→ne target 0 e (sym same), tt), ap (λ b. some (if b then some at else none)) e)
]
strchr_loop-First at target (c ∷ text) behind (one, ok) =
    let more = strchr_loop-First (at + 1) target text behind ok in
    let rest = strchr_loop (at + 1) (c_string text behind) target in
    elim (Bool-cases (c == target)) [
      | inl e ↦ inl (
        [],
        text ++ 0 ∷ [],
        ap (λ z. z ∷ text ++ 0 ∷ []) (==→eq c target e),
        tt,
        ap
              (λ b.
                if b
                then some (if target == 0 then some at else none)
                else if c == target
                then some (some at)
                else rest)
              (ne→== c 0 one)
            ∙ ap (λ b. if b then some (some at) else rest) e
            ∙ ap (λ n. some (some n)) (omega arith),
      )
      | inr e ↦
          subst (First at target (c ∷ text ++ 0 ∷ []))
            (sym (
              ap
                (λ b.
                  if b
                  then some (if target == 0 then some at else none)
                  else if c == target
                  then some (some at)
                  else rest)
                (ne→== c 0 one)
              ∙ ap (λ b. if b then some (some at) else rest) e))
            (First-cons at target c (text ++ 0 ∷ []) rest (==→ne c target e) more)
    ]

-- On a text without zeros `strchr` returns: the first place of the byte `c % 256` in the text and its zero,
-- or null where it is in neither.
pub strchr-First :
    (text behind : List ℕ) (c : ℕ)
    → All NonZero text
    → First 0 (c % 256) (text ++ 0 ∷ []) (strchr (c_string text behind) c)
strchr-First text behind c ok = strchr_loop-First 0 (c % 256) text behind ok

-- The result points to the last place of the byte, or it is what was found before.
abbrev pub Last : ℕ → Option ℕ → ℕ → List ℕ → Option (Option ℕ) → Type 0
Last at last target bytes r =
    ((before after : List ℕ) × (bytes ≡ before ++ target ∷ after)
      × All (Other target) after
      × (r ≡ some (some (at + length before))))
    ⊎ (All (Other target) bytes × (r ≡ some last))

Last-cons :
    (at target c : ℕ) (last : Option ℕ) (bytes : List ℕ) (r : Option (Option ℕ))
    → Last (at + 1) (if c == target then some at else last) target bytes r
    → Last at last target (c ∷ bytes) r
Last-cons at target c last bytes r (inl (before, after, e, apart, run)) =
    inl (c ∷ before, after, ap (λ l. c ∷ l) e, apart, run ∙ ap (λ n. some (some n)) (omega arith))
Last-cons at target c last bytes r (inr (apart, run)) = elim (Bool-cases (c == target)) [
  | inl e ↦ inl (
    [],
    bytes,
    ap (λ z. z ∷ bytes) (==→eq c target e),
    apart,
    run ∙ ap (λ b. some (if b then some at else last)) e ∙ ap (λ n. some (some n)) (omega arith),
  )
  | inr e ↦ inr ((==→ne c target e, apart), run ∙ ap (λ b. some (if b then some at else last)) e)
]

strrchr_loop-Last :
    (at target : ℕ) (last : Option ℕ) (text behind : List ℕ)
    → All NonZero text
    → Last at last target text (strrchr_loop at last (c_string text behind) target)
unfolding strrchr_loop
strrchr_loop-Last at target last [] behind ok = inr (tt, refl)
strrchr_loop-Last at target last (c ∷ text) behind (one, ok) =
    let found = if c == target then some at else last in
    let rest = strrchr_loop (at + 1) found (c_string text behind) target in
    subst (Last at last target (c ∷ text))
      (sym (ap (λ b. if b then some last else rest) (ne→== c 0 one)))
      (Last-cons at target c last text rest
        (strrchr_loop-Last (at + 1) target found text behind ok))

-- On a text without zeros `strrchr` returns: the last place of the byte in the text, or null.
pub strrchr-Last :
    (text behind : List ℕ) (c : ℕ)
    → All NonZero text
    → Last 0 none c text (strrchr (c_string text behind) c)
strrchr-Last text behind c ok = strrchr_loop-Last 0 c none text behind ok
