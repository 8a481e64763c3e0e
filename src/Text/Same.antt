-- ===== src/Text/Same.antt =====
-- `strcmp` as the equality of two texts.
use eitan_os.Base.{
  ℕ, ◌≤◌, ◌≡◌, refl, sym, ap, ◌∙◌, inl, inr, Bool, true, false, ◌==◌, if◌then◌else◌, Bool-cases,
  ==→eq, List, [], ◌∷◌, All, length, some, arith,
}
use eitan_os.Text.{strcmp}
use eitan_os.Text.Compare.{NonZero, c_string, strcmp-Decides}

abbrev pub same_text : List ℕ → List ℕ → Bool
same_text [] [] = true
same_text [] (d ∷ t) = false
same_text (c ∷ s) [] = false
same_text (c ∷ s) (d ∷ t) = let rest = same_text s t in if c == d then rest else false

pub same_text-eq : (s t : List ℕ) → same_text s t ≡ true → s ≡ t
same_text-eq [] [] h = refl
same_text-eq [] (d ∷ t) h = absurd (ground (arith, h))
same_text-eq (c ∷ s) [] h = absurd (ground (arith, h))
same_text-eq (c ∷ s) (d ∷ t) h = elim (Bool-cases (c == d)) [
  | inl e ↦
      let rest = same_text-eq s t (ground (arith, h, e)) in
      ap (λ z. z ∷ s) (==→eq c d e) ∙ ap (λ l. d ∷ l) rest
  | inr e ↦ absurd (ground (arith, h, e))
]

pub same_text_refl : (s : List ℕ) → same_text s s ≡ true
same_text_refl [] = refl
same_text_refl (c ∷ s) = ground (arith, same_text_refl s)

-- `strcmp` of two short texts, as a test
pub strcmp-same_text :
    (s t behind behind' : List ℕ)
    → All NonZero s
    → All NonZero t
    → length s ≤ 1001
    → length t ≤ 1001
    → strcmp (c_string s behind) (c_string t behind') ≡ some (same_text s t)
strcmp-same_text s t behind behind' ok ok' short short' =
    let (b, run, (to, from)) = strcmp-Decides s t behind behind' ok ok' short short' in
    run ∙ ap some (agree b to from)
  where
    agree : (b : Bool) → (b ≡ true → s ≡ t) → (s ≡ t → b ≡ true) → b ≡ same_text s t
    agree b to from = elim (Bool-cases b) [
      | inl yes_same ↦
          yes_same ∙ sym (ap (λ u. same_text s u) (sym (to yes_same)) ∙ same_text_refl s)
      | inr other ↦ elim (Bool-cases (same_text s t)) [
        | inl same ↦ absurd (ground (arith, other, from (same_text-eq s t same)))
        | inr differ ↦ other ∙ sym differ
      ]
    ]
