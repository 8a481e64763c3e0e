-- ===== src/Base/Sequences.antt =====
-- Members of a list, rotations, and what all members of a list satisfy.
use mathlib.Core.Path.{◌≡◌, refl, ap}
use mathlib.Core.Logic.{◌⊎◌, inl, inr}
use mathlib.Core.List.{List, [], ◌∷◌, ◌++◌}
use eitan_os.Base.Lists.{All}

module _ {ℓ} {A : Type ℓ} where
  pub append_assoc : (xs ys zs : List A) → (xs ++ ys) ++ zs ≡ xs ++ (ys ++ zs)
  append_assoc [] ys zs = refl
  append_assoc (x ∷ xs) ys zs = ap (λ l. x ∷ l) (append_assoc xs ys zs)

  pub append_nil : (xs : List A) → xs ++ [] ≡ xs
  append_nil [] = refl
  append_nil (x ∷ xs) = ap (λ l. x ∷ l) (append_nil xs)

  pub data Member (a : A) : List A → Type ℓ where
    here : {xs : List A} → Member a (a ∷ xs)
    there : {x : A} {xs : List A} → Member a xs → Member a (x ∷ xs)

  -- The second list is the first, begun at another place.
  abbrev pub Rotated : List A → List A → Type ℓ
  Rotated xs ys = (a b : List A) × (xs ≡ a ++ b) × (ys ≡ b ++ a)

  pub Member-left : (a : A) (xs ys : List A) → Member a xs → Member a (xs ++ ys)
  Member-left a [] ys m = elim m [ ]
  Member-left a (x ∷ xs) ys here = here
  Member-left a (x ∷ xs) ys (there m) = there (Member-left a xs ys m)

  pub Member-right : (a : A) (xs ys : List A) → Member a ys → Member a (xs ++ ys)
  Member-right a [] ys m = m
  Member-right a (x ∷ xs) ys m = there (Member-right a xs ys m)

  pub Member-parts : (a : A) (xs ys : List A) → Member a (xs ++ ys) → Member a xs ⊎ Member a ys
  Member-parts a [] ys m = inr m
  Member-parts a (x ∷ xs) ys here = inl here
  Member-parts a (x ∷ xs) ys (there m) = elim (Member-parts a xs ys m) [
    | inl l ↦ inl (there l)
    | inr r ↦ inr r
  ]

  pub Member-swap : (a : A) (xs ys : List A) → Member a (xs ++ ys) → Member a (ys ++ xs)
  Member-swap a xs ys m = elim (Member-parts a xs ys m) [
    | inl l ↦ Member-right a ys xs l
    | inr r ↦ Member-left a ys xs r
  ]

module _ {ℓ κ} {A : Type ℓ} (P : A → Type κ) where
  pub All-append : (xs ys : List A) → All P xs → All P ys → All P (xs ++ ys)
  All-append [] ys h k = k
  All-append (x ∷ xs) ys (one, h) k = (one, All-append xs ys h k)

  pub All-parts : (xs ys : List A) → All P (xs ++ ys) → All P xs × All P ys
  All-parts [] ys h = (tt, h)
  All-parts (x ∷ xs) ys (one, h) = let (l, r) = All-parts xs ys h in ((one, l), r)

  pub All-swap : (xs ys : List A) → All P (xs ++ ys) → All P (ys ++ xs)
  All-swap xs ys h = let (l, r) = All-parts xs ys h in All-append ys xs r l

  pub All-Member : (a : A) (xs : List A) → All P xs → Member a xs → P a
  All-Member a [] h m = elim m [ ]
  All-Member a (x ∷ xs) (one, h) here = one
  All-Member a (x ∷ xs) (one, h) (there m) = All-Member a xs h m

module _ {ℓ κ ι} {A : Type ℓ} (P : A → Type κ) (Q : A → Type ι) where
  pub All-map : (xs : List A) → ((x : A) → P x → Q x) → All P xs → All Q xs
  All-map [] f h = tt
  All-map (x ∷ xs) f (one, h) = (f x one, All-map xs f h)

module _ {ℓ κ ι υ} {A : Type ℓ} (P : A → Type κ) (Q : A → Type ι) (R : A → Type υ) where
  pub All-zip : (xs : List A) → ((x : A) → P x → Q x → R x) → All P xs → All Q xs → All R xs
  All-zip [] f h g = tt
  All-zip (x ∷ xs) f (one, h) (other, g) = (f x one other, All-zip xs f h g)
