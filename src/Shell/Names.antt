-- ===== src/Shell/Names.antt =====
-- programs/shell/c.c: what the first loop of `parse_path` makes of the names in a path.
use eitan_os.Base.{
  ℕ, zero, suc, ◌<◌, ◌≡◌, refl, sym, ap, subst, ◌∙◌, inl, inr, ltb, if◌then◌else◌, List, [], ◌∷◌,
  map, All, length, Option, some, arith,
}
use eitan_os.Base.Faults.{◌>>=◌}
use eitan_os.Text.Compare.{NonZero, c_string}
use eitan_os.Text.Same.{same_text, strcmp-same_text}
use eitan_os.Text.Split.{tokens_of, ended, round-OneToken}
use eitan_os.Text.Tokens.{IsPart}
use eitan_os.Shell.{slash, dot, pop, stack_part, parse_loop}

-- The names on the way after `..`
abbrev pub back : List (List ℕ) → List (List ℕ)
back [] = []
back (name ∷ names) = names

-- The names on the way after one more: `..` goes back, `.` stays, and a name goes on, up to 64 of them.
abbrev pub step : List (List ℕ) → List ℕ → List (List ℕ)
step names name =
    if same_text name (dot ∷ dot ∷ [])
    then back names
    else if same_text name (dot ∷ [])
    then names
    else if ltb (length names) 64
    then name ∷ names
    else names

abbrev pub steps : List (List ℕ) → List (List ℕ) → List (List ℕ)
steps names [] = names
steps names (name ∷ more) = steps (step names name) more

length-map : (names : List (List ℕ)) → length (map ended names) ≡ length names
length-map [] = refl
length-map (name ∷ names) = ap suc (length-map names)

pop-back : (names : List (List ℕ)) → pop (map ended names) ≡ map ended (back names)
pop-back [] = refl
pop-back (name ∷ names) = refl

stack_part-step :
    (name : List ℕ) (names : List (List ℕ))
    → IsPart name
    → stack_part (ended name) (map ended names) ≡ some (map ended (step names name))
unfolding stack_part
stack_part-step name names (ok, short) =
    let two =
      strcmp-same_text name (dot ∷ dot ∷ []) [] [] ok (omega arith, (omega arith, tt)) short
        (omega arith) in
    let one = strcmp-same_text name (dot ∷ []) [] [] ok (omega arith, tt) short (omega arith) in
    let popped = pop-back names in
    let measure = length-map names in ground (arith, two, one, popped, measure)

-- The stack that the first loop leaves is that of the names that the steps leave.
pub parse_loop-steps :
    (fuel : ℕ) (names : List (List ℕ)) (text behind : List ℕ)
    → All NonZero text
    → All IsPart (tokens_of slash [] text)
    → length text < fuel
    → parse_loop fuel (map ended names) (c_string text behind)
      ≡ some (map ended (steps names (tokens_of slash [] text)))
unfolding parse_loop
parse_loop-steps zero names text behind ok parts enough = absurd (omega (arith, enough))
parse_loop-steps (suc fuel) names text behind ok parts enough =
    let stack = map ended names in
    let go : List ℕ → List ℕ → Option (List (List ℕ)) =
      λ bytes r. stack_part (ended bytes) stack >>= (λ next. parse_loop fuel next r) in
    elim (round-OneToken slash stack go text behind ok (omega arith)) [
      | inl (none_left, run) ↦ run ∙ ap (λ ts. some (map ended (steps names ts))) (sym none_left)
      | inr (bytes, rest, same, shorter, ok', run) ↦
          let (one, more) = subst (All IsPart) same parts in
          run
          ∙ ap (λ o. o >>= (λ next. parse_loop fuel next (c_string rest behind)))
              (stack_part-step bytes names one)
          ∙ parse_loop-steps fuel (step names bytes) rest behind ok' more
              (omega (arith, shorter, enough))
          ∙ ap (λ ts. some (map ended (steps names ts))) (sym same)
    ]
