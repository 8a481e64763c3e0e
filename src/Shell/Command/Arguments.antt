-- ===== src/Shell/Command/Arguments.antt =====
-- programs/shell/c.c: the loop of `parse_command_line` over all arguments.
use eitan_os.Base.{
  ℕ, zero, suc, ◌+◌, ◌*◌, ◌/◌, ◌%◌, ◌^◌, ◌<◌, ◌≤◌, ◌≡◌, refl, sym, ap, subst, ◌∙◌, inl, inr, true,
  ◌==◌, ◌||◌, ltb, if◌then◌else◌, Bool-cases, List, [], ◌∷◌, ◌++◌, append_assoc, map, All, length,
  length-append, some, arith,
}
use eitan_os.Text.Compare.{NonZero, c_string}
use eitan_os.Text.Search.{Other}
use eitan_os.Text.Split.{ended}
use eitan_os.Shell.Command.{space, grown, args_loop}
use eitan_os.Shell.Command.Words.{pieces, parted, arg_loop-stop, substr-piece}

-- There is room for what is stored, and the capacity has bounds.
abbrev pub IsRoomy : ℕ → ℕ → Type 0
IsRoomy capacity size = (10 ≤ capacity) × (capacity ≤ 516) × (size < capacity)

-- There is room for one more argument, after the capacity was doubled if it had to be.
grown-IsRoomy :
    (capacity size : ℕ)
    → IsRoomy capacity size
    → size ≤ 128
    → IsRoomy (grown capacity size) (size + 1)
grown-IsRoomy capacity size (low, high, room) few = elim (Bool-cases (ltb (capacity / 2) size)) [
  | inl e ↦
      let over : capacity / 2 < size = ground (arith, e) in
      let same : grown capacity size ≡ capacity * 2 =
        ap (λ b. if b then capacity * 2 % 2 ^ 32 else capacity) e ∙ omega (arith, over, few) in
      (omega (arith, same, low), omega (arith, same, over, few), omega (arith, same, room, low))
  | inr e ↦
      let under : size ≤ capacity / 2 = ground (arith, e) in
      let same : grown capacity size ≡ capacity =
        ap (λ b. if b then capacity * 2 % 2 ^ 32 else capacity) e in
      (omega (arith, same, low), omega (arith, same, high), omega (arith, same, under, low))
]

pub All-left :
    (first rest : List ℕ) → All NonZero (first ++ rest) → All NonZero first × All NonZero rest
All-left [] rest ok = (tt, ok)
All-left (c ∷ first) rest (one, ok) =
    let (left, right) = All-left first rest ok in ((one, left), right)

module _ (fresh : ℕ → List ℕ) (given : (n : ℕ) → length (fresh n) ≡ n) where
  -- One round, whose argument ends at `d`
  round :
      (fuel capacity start d : ℕ) (args : List (List ℕ)) (first p : List ℕ)
      → IsRoomy capacity (length args)
      → length args ≤ 128
      → All NonZero first
      → All (Other space) first
      → ((d == space) || (d == 0)) ≡ true
      → start + length first ≤ 127
      → args_loop fresh (suc fuel) capacity start args (first ++ d ∷ p) ≡ (
          if d == space
          then args_loop fresh fuel
              (grown capacity (length args))
              (start + (length first + 1))
              (args ++ ended first ∷ [])
              p
          else some (args ++ ended first ∷ []))
  unfolding args_loop
  round fuel capacity start d args first p roomy few ok other stop small =
      let (_, _, room) = grown-IsRoomy capacity (length args) roomy few in
      let end = arg_loop-stop start 0 d first p ok other stop small in
      let copy =
        substr-piece (fresh (length first + 1)) first (d ∷ p) ok
          (given (length first + 1) ∙ omega arith) in
      let zero_less : 0 + length first ≡ length first = omega arith in
      ground (arith, end, copy, room, zero_less)

  -- The arguments that the loop adds are the pieces of the text, each with a zero, and none is stored
  -- behind the capacity.
  pub args_loop-pieces :
      (fuel capacity start : ℕ) (args : List (List ℕ)) (text behind : List ℕ)
      → IsRoomy capacity (length args)
      → length args ≤ start
      → All NonZero text
      → start + length text ≤ 127
      → length text < fuel
      → args_loop fresh fuel capacity start args (c_string text behind)
        ≡ some (args ++ map ended (pieces [] text))
  args_loop-pieces zero capacity start args text behind roomy few ok small enough =
      absurd (omega (arith, enough))
  args_loop-pieces (suc fuel) capacity start args text behind roomy few ok small enough =
      let bound : length args ≤ 128 = omega (arith, few, small) in
      elim (parted text) [
        | inl (other, _, _, all) ↦
            round fuel capacity start 0 args text behind roomy bound ok other refl small
            ∙ ap (λ l. some (args ++ map ended l)) (sym (all []))
        | inr (first, rest, whole, other, _, _, all) ↦
            let (left, (_, right)) = All-left first (space ∷ rest) (subst (All NonZero) whole ok) in
            let size : length text ≡ length first + suc (length rest) =
              ap length whole ∙ length-append first (space ∷ rest) in
            let roomy' = grown-IsRoomy capacity (length args) roomy bound in
            let next = args ++ ended first ∷ [] in
            let more : length next ≡ length args + 1 = length-append args (ended first ∷ []) in
            ap (λ l. args_loop fresh (suc fuel) capacity start args (c_string l behind)) whole
            ∙ ap (args_loop fresh (suc fuel) capacity start args)
                (append_assoc first (space ∷ rest) (0 ∷ behind))
            ∙ round fuel capacity start space args first (c_string rest behind) roomy bound left
                other refl (omega (arith, size, small))
            ∙ args_loop-pieces fuel (grown capacity (length args)) (start + (length first + 1)) next
                rest behind (subst (IsRoomy (grown capacity (length args))) (sym more) roomy')
                (omega (arith, more, few)) right (omega (arith, size, small))
                (omega (arith, size, enough))
            ∙ ap some (append_assoc args (ended first ∷ []) (map ended (pieces [] rest)))
            ∙ ap (λ l. some (args ++ map ended l)) (sym (all []))
      ]
