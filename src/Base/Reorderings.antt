-- ===== src/Base/Reorderings.antt =====
-- Reorderings of a list as a data type, which any predicate on all members goes through; the library's `Perm`
-- forgets which one it is.
use mathlib.Core.List.{List, [], ◌∷◌, ◌++◌, Perm}
use mathlib.Core.List.Perm
use eitan_os.Base.Lists.{All}

module _ {ℓ} {A : Type ℓ} where
  pub data Reordered : List A → List A → Type ℓ where
    same : {xs : List A} → Reordered xs xs
    behind : {a : A} {xs ys : List A} → Reordered xs ys → Reordered (a ∷ xs) (a ∷ ys)
    swapped : {a b : A} {xs : List A} → Reordered (a ∷ b ∷ xs) (b ∷ a ∷ xs)
    twice : {xs ys zs : List A} → Reordered xs ys → Reordered ys zs → Reordered xs zs

  pub Reordered-back : {xs ys : List A} → Reordered xs ys → Reordered ys xs
  Reordered-back same = same
  Reordered-back (behind r) = behind (Reordered-back r)
  Reordered-back swapped = swapped
  Reordered-back (twice r s) = twice (Reordered-back s) (Reordered-back r)

  pub Reordered-middle : (a : A) (xs ys : List A) → Reordered (xs ++ a ∷ ys) (a ∷ xs ++ ys)
  Reordered-middle a [] ys = same
  Reordered-middle a (x ∷ xs) ys = twice (behind (Reordered-middle a xs ys)) swapped

  pub Reordered-append :
      (xs : List A) {ys zs : List A} → Reordered ys zs → Reordered (xs ++ ys) (xs ++ zs)
  Reordered-append [] r = r
  Reordered-append (x ∷ xs) r = behind (Reordered-append xs r)

  pub Reordered-Perm : {xs ys : List A} → Reordered xs ys → Perm xs ys
  Reordered-Perm (same {xs = xs}) = Perm.refl xs
  Reordered-Perm (behind {a = a} r) = Perm.cons a (Reordered-Perm r)
  Reordered-Perm (swapped {a = a} {b = b} {xs = xs}) = Perm.swap b a xs
  Reordered-Perm (twice r s) = Perm.trans (Reordered-Perm r) (Reordered-Perm s)

  pub All-Reordered {κ} : (P : A → Type κ) {xs ys : List A} → Reordered xs ys → All P xs → All P ys
  All-Reordered P same h = h
  All-Reordered P (behind r) (one, h) = (one, All-Reordered P r h)
  All-Reordered P swapped (one, (two, h)) = (two, (one, h))
  All-Reordered P (twice r s) h = All-Reordered P s (All-Reordered P r h)
