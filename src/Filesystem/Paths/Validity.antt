-- ===== src/Filesystem/Paths/Validity.antt =====
-- filesystem.c: `is_valid_path` says whether a path is a row of names, each behind a slash.
use eitan_os.Base.{
  ℕ, zero, suc, ◌+◌, ◌-◌, ◌^◌, ◌≤◌, ◌<◌, ◌≡◌, refl, ap, ◌∙◌, Bool, false, not, ◌==◌, ltb,
  if◌then◌else◌, List, [], ◌∷◌, All, length, some, arith,
}
use eitan_os.Text.{counted, minus_one, strlen}
use eitan_os.Text.Compare.{NonZero, c_string, strlen_lem, measure_short, measure_long}
use eitan_os.Filesystem.Paths.{slash, component_loop, is_valid_path}

-- What a path is to be behind its first slash: names of 1 to 60 bytes with slashes between them, of which
-- `n` bytes of the first are read; or nothing at all.
abbrev pub are_names : ℕ → List ℕ → Bool
are_names n [] = not (n == 0)
are_names n (c ∷ text) =
    let next = are_names 0 text in
    let rest = are_names (n + 1) text in
    if c == slash then if n == 0 then false else next else if ltb 60 (n + 1) then false else rest

abbrev pub is_path : List ℕ → Bool
is_path [] = false
is_path (c ∷ []) = c == slash
is_path (c ∷ d ∷ text) = let rest = are_names 0 (d ∷ text) in if c == slash then rest else false

component_loop-are_names :
    (len n : ℕ) (text behind : List ℕ)
    → 1 < len
    → All NonZero text
    → component_loop len n (c_string text behind) (length text) ≡ some (are_names n text)
unfolding component_loop
component_loop-are_names len n [] behind long ok = ground (arith, long)
component_loop-are_names len n (c ∷ text) behind long (one, ok) =
    let next = component_loop-are_names len 0 text behind long ok in
    let rest = component_loop-are_names len (n + 1) text behind long ok in
    ground (arith, one, next, rest)

-- A path of 1 to 1001 bytes is valid if it is a slash alone, or names of 1 to 60 bytes with a slash before each
-- and nothing behind.
pub is_valid_path-is_path :
    (text behind : List ℕ)
    → All NonZero text
    → 1 ≤ length text
    → length text ≤ 1001
    → is_valid_path (c_string text behind) ≡ some (is_path text)
unfolding is_valid_path component_loop
is_valid_path-is_path [] behind ok full short = absurd (omega (arith, full))
is_valid_path-is_path (c ∷ []) behind ok full short =
    let measured : strlen (c_string (c ∷ []) behind) ≡ some (counted 1) =
      strlen_lem (c ∷ []) behind ok ∙ refl in
    ground (arith, measured)
is_valid_path-is_path (c ∷ d ∷ text) behind ok full short =
    let whole = c ∷ d ∷ text in
    let measured : strlen (c_string whole behind) ≡ some (counted (length whole)) =
      strlen_lem whole behind ok ∙ ap some (measure_short (length whole) short) in
    let loop = component_loop-are_names (length whole) 0 (d ∷ text) behind (omega arith) (ok.1) in
    ground (arith, measured, loop)

component_loop_past :
    (len n left : ℕ) (text behind : List ℕ)
    → All NonZero text
    → length text < left
    → component_loop len n (c_string text behind) left ≡ some false
unfolding component_loop
component_loop_past len n zero text behind ok h = absurd (omega (arith, h))
component_loop_past len n (suc left) [] behind ok h = ground (arith)
component_loop_past len n (suc left) (c ∷ text) behind (one, ok) h =
    let next = component_loop_past len 0 left text behind ok (omega (arith, h)) in
    let rest = component_loop_past len (n + 1) left text behind ok (omega (arith, h)) in
    ground (arith, one, next, rest)

-- `strlen` says -1 of a longer path, and such a path is not valid.
pub is_valid_path_long :
    (text behind : List ℕ)
    → All NonZero text
    → 1001 < length text
    → length text < 2 ^ 64 - 1
    → is_valid_path (c_string text behind) ≡ some false
unfolding is_valid_path
is_valid_path_long [] behind ok long fits = absurd (omega (arith, long))
is_valid_path_long (c ∷ text) behind ok long fits =
    let whole = c ∷ text in
    let measured : strlen (c_string whole behind) ≡ some minus_one =
      strlen_lem whole behind ok ∙ ap some (measure_long (length whole) long) in
    let past =
      component_loop_past (2 ^ 64 - 1) 0 (2 ^ 64 - 2) text behind ok.1 (omega (arith, fits)) in
    ground (arith, measured, past)
