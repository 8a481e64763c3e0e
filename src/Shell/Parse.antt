-- ===== src/Shell/Parse.antt =====
-- programs/shell/c.c: `parse_path` as a whole.
use eitan_os.Base.{
  ℕ, suc, ◌+◌, ◌-◌, ◌≤◌, ◌≡◌, refl, sym, ap, subst, ◌∙◌, inl, inr, Bool, true, false, ◌==◌, ltb,
  leb, if◌then◌else◌, Bool-cases, List, [], ◌∷◌, ◌++◌, map, All, length, length-append, length-drop,
  length-replicate, replicate, drop, some, arith,
}
use eitan_os.Text.{counted, strlen}
use eitan_os.Text.Compare.{NonZero, c_string, strlen_lem, measure_short}
use eitan_os.Text.Same.{same_text}
use eitan_os.Text.Split.{flush, tokens_of, ended}
use eitan_os.Text.Tokens.{IsPart, tokens-IsPart}
use eitan_os.Shell.{slash, dot, bottom_up, parse_path}
use eitan_os.Shell.Names.{back, step, steps, parse_loop-steps}
use eitan_os.Shell.Canonical.{joined, rebuild_loop-joined}

-- The bytes of the names, and a slash for each
abbrev pub weight : List (List ℕ) → ℕ
weight [] = 0
weight (name ∷ names) = length name + 1 + weight names

joined-weight : (names : List (List ℕ)) → length (joined names) ≤ weight names - 1
joined-weight [] = omega arith
joined-weight (name ∷ []) = omega arith
joined-weight (name ∷ other ∷ names) =
    omega
      (arith, joined-weight (other ∷ names), length-append name (slash ∷ joined (other ∷ names)))

weight-flush :
    (bytes : List ℕ) (tokens : List (List ℕ))
    → weight (flush bytes tokens) ≤ length bytes + 1 + weight tokens
weight-flush [] tokens = omega arith
weight-flush (b ∷ bytes) tokens = omega arith

weight-tokens_of :
    (bytes text : List ℕ) → weight (tokens_of slash bytes text) ≤ length bytes + length text + 1
weight-tokens_of bytes [] = omega (arith, weight-flush bytes [])
weight-tokens_of bytes (c ∷ text) =
    let over = flush bytes (tokens_of slash [] text) in
    let on = tokens_of slash (bytes ++ c ∷ []) text in
    elim (Bool-cases (c == slash)) [
      | inl e ↦
          subst (λ b. weight (if b then over else on) ≤ length bytes + suc (length text) + 1)
            (sym e)
            (omega (arith, weight-flush bytes (tokens_of slash [] text), weight-tokens_of [] text))
      | inr e ↦
          subst (λ b. weight (if b then over else on) ≤ length bytes + suc (length text) + 1)
            (sym e)
            (omega (arith, weight-tokens_of (bytes ++ c ∷ []) text, length-append bytes (c ∷ [])))
    ]

-- Going a step adds at most the name.
weight-step :
    (names : List (List ℕ)) (name : List ℕ)
    → weight (step names name) ≤ length name + 1 + weight names
weight-step names name = let fewer = weight-back names in ground (arith, fewer)
  where
    weight-back : (names : List (List ℕ)) → weight (back names) ≤ weight names
    weight-back [] = omega arith
    weight-back (name ∷ names) = omega arith

weight-steps : (names more : List (List ℕ)) → weight (steps names more) ≤ weight names + weight more
weight-steps names [] = omega arith
weight-steps names (name ∷ more) =
    omega (arith, weight-steps (step names name) more, weight-step names name)

weight-bottom_up :
    (names parts : List (List ℕ)) → weight (bottom_up names parts) ≡ weight names + weight parts
weight-bottom_up [] parts = omega arith
weight-bottom_up (name ∷ names) parts = omega (arith, weight-bottom_up names (name ∷ parts))

bottom_up-map :
    (names parts : List (List ℕ))
    → bottom_up (map ended names) (map ended parts) ≡ map ended (bottom_up names parts)
bottom_up-map [] parts = refl
bottom_up-map (name ∷ names) parts = bottom_up-map names (name ∷ parts)

module _ (P : List ℕ → Type 0) where
  pub bottom_up-All :
      (names parts : List (List ℕ)) → All P names → All P parts → All P (bottom_up names parts)
  bottom_up-All [] parts h k = k
  bottom_up-All (name ∷ names) parts (one, h) k = bottom_up-All names (name ∷ parts) h (one, k)

  choice-All :
      (up here room : Bool) (fewer names longer : List (List ℕ))
      → All P fewer
      → All P names
      → All P longer
      → All P (if up then fewer else if here then names else if room then longer else names)
  choice-All true here room fewer names longer b n l = b
  choice-All false true room fewer names longer b n l = n
  choice-All false false true fewer names longer b n l = l
  choice-All false false false fewer names longer b n l = n

  back-All : (names : List (List ℕ)) → All P names → All P (back names)
  back-All [] h = tt
  back-All (name ∷ names) (one, h) = h

  step-All :
      (names : List (List ℕ)) (name : List ℕ) → All P names → P name → All P (step names name)
  step-All names name h one =
      choice-All (same_text name (dot ∷ dot ∷ [])) (same_text name (dot ∷ []))
        (ltb (length names) 64) (back names) names (name ∷ names) (back-All names h) h (one, h)

  pub steps-All : (names more : List (List ℕ)) → All P names → All P more → All P (steps names more)
  steps-All names [] h k = h
  steps-All names (name ∷ more) h (one, k) =
      steps-All (step names name) more (step-All names name h one) k

-- The names that are left of a path, and the path that has only those
abbrev pub names_left : List ℕ → List (List ℕ)
names_left text = bottom_up (steps [] (tokens_of slash [] text)) []

abbrev pub canonical : List ℕ → List ℕ
canonical text = slash ∷ joined (names_left text)

-- The canonical path is no longer than the path.
pub canonical-length :
    (text : List ℕ) → 1 ≤ length text → length (canonical (slash ∷ text)) ≤ length (slash ∷ text)
canonical-length text full =
    let tokens = tokens_of slash [] text in
    let left = steps [] tokens in
    let fewer : weight left ≤ weight tokens = omega (arith, weight-steps [] tokens) in
    omega (
      arith,
      full,
      joined-weight (bottom_up left []),
      weight-bottom_up left [],
      fewer,
      weight-tokens_of [] text,
    )

-- A path of 2 to 1001 bytes that begins with a slash is left as its canonical path, in its own memory: the names
-- that are left of it with a slash before each, after `.` was passed over and `..` took back the name before,
-- and after the 64th name further ones were dropped.
pub parse_path-canonical :
    (text behind : List ℕ)
    → All NonZero text
    → 1 ≤ length text
    → length text ≤ 1000
    → (behind' : List ℕ) × (parse_path (c_string (slash ∷ text) behind)
        ≡ some (c_string (canonical (slash ∷ text)) behind'))
unfolding parse_path
parse_path-canonical text behind ok full short =
    let whole = slash ∷ text in
    let path = c_string whole behind in
    let nonzero : All NonZero whole = (omega arith, ok) in
    let tokens = tokens_of slash [] whole in
    let parts = tokens-IsPart slash [] whole tt nonzero (omega (arith, short)) in
    let names = names_left whole in
    let named : All IsPart names =
      bottom_up-All IsPart (steps [] tokens) [] (steps-All IsPart [] tokens tt parts) tt in
    let measured : strlen path ≡ some (counted (length whole)) =
      strlen_lem whole behind nonzero
      ∙ ap some (measure_short (length whole) (omega (arith, short))) in
    let stack =
      parse_loop-steps (suc (length path)) [] whole behind nonzero parts
        (omega (arith, length-append whole (0 ∷ behind))) in
    let rest = drop 2 (replicate (length whole) 0 ++ drop (length whole) path) in
    let size : length (c_string (slash ∷ []) rest) ≡ length path = omega (
      arith,
      full,
      length-drop 2 (replicate (length whole) 0 ++ drop (length whole) path),
      length-append (replicate (length whole) 0) (drop (length whole) path),
      length-replicate {A = ℕ} (length whole) 0,
      length-drop (length whole) path,
      length-append whole (0 ∷ behind),
    ) in
    let bound = canonical-length text full in
    let (behind', run) =
      rebuild_loop-joined names (slash ∷ []) rest named (omega arith, tt)
        (omega (arith, bound, short))
        (omega (arith, bound, size, length-append whole (0 ∷ behind))) in
    let same = bottom_up-map (steps [] tokens) [] in
    let long : leb (length whole) 1 ≡ false = ground (arith, full) in
    (behind', ground (arith, measured, long, stack, same, run))
