-- ===== src/Shell/Canonical.antt =====
-- programs/shell/c.c: the path that `parse_path` leaves in its place.
use eitan_os.Base.{
  ℕ, ◌+◌, ◌≤◌, ◌<◌, ◌≡◌, sym, ap, ◌∙◌, true, false, ltb, if◌then◌else◌, List, [], ◌∷◌, ◌++◌,
  append_assoc, append_nil, map, All, All-append, length, length-append, length-drop, drop, some,
  none, arith,
}
use eitan_os.Text.{counted, strlen}
use eitan_os.Text.Compare.{NonZero, c_string, strlen_lem, measure_short}
use eitan_os.Text.Build.{copy_bytes, copy_bytes-append, str_concat_lem}
use eitan_os.Text.Split.{ended}
use eitan_os.Text.Tokens.{IsPart}
use eitan_os.Text.Concats.{with_zero}
use eitan_os.Shell.{slash, copy_over, rebuild_loop}

-- Names with slashes between them
abbrev pub joined : List (List ℕ) → List ℕ
joined [] = []
joined (name ∷ []) = name
joined (name ∷ other ∷ names) = name ++ slash ∷ joined (other ∷ names)

-- The copy of a new string over the path
copied :
    (text path : List ℕ)
    → All NonZero text
    → length text ≤ 1001
    → length text < length path
    → (behind : List ℕ) × (length (c_string text behind) ≡ length path)
      × (strlen (c_string text []) ≡ some (counted (length text)))
      × (copy_bytes (with_zero (counted (length text))) (c_string text [])
          ≡ some (c_string text []))
      × (copy_over (c_string text []) path ≡ some (c_string text behind))
copied text path ok short fits =
    let bytes = c_string text [] in
    let measure : length bytes ≡ length text + 1 = omega (arith, length-append text (0 ∷ [])) in
    let behind = drop (length bytes) path in
    let all : copy_bytes (length bytes) bytes ≡ some bytes =
      ap (copy_bytes (length bytes)) (sym (append_nil bytes)) ∙ copy_bytes-append bytes [] in
    let whole : bytes ++ behind ≡ c_string text behind = append_assoc text (0 ∷ []) behind in
    let inside : ltb (length path) (length bytes) ≡ false = ground (arith, measure, fits) in
    (
      behind,
      omega
          (arith, length-append text (0 ∷ behind), length-drop (length bytes) path, measure, fits),
      strlen_lem text [] ok ∙ ap some (measure_short (length text) short),
      ap (λ n. copy_bytes n bytes) (sym measure) ∙ all,
      ap (λ b. if b then none else some (bytes ++ behind)) inside ∙ ap some whole,
    )

abbrev Rebuilt : List (List ℕ) → List ℕ → List ℕ → Type 0
Rebuilt names front behind =
    (behind' : List ℕ) × (rebuild_loop (map ended names) (c_string front behind)
      ≡ some (c_string (front ++ joined names) behind'))

-- The last loop of `parse_path` joins the names behind what the path has, if there is room for them.
pub rebuild_loop-joined :
    (names : List (List ℕ)) (front behind : List ℕ)
    → All IsPart names
    → All NonZero front
    → length (front ++ joined names) ≤ 1001
    → length (front ++ joined names) < length (c_string front behind)
    → Rebuilt names front behind
unfolding rebuild_loop
rebuild_loop-joined [] front behind ok held short fits =
    (behind, ap (λ t. some (c_string t behind)) (sym (append_nil front)))
rebuild_loop-joined (name ∷ []) front behind ((one, small), ok) held short fits =
    let text = front ++ name in
    let path = c_string front behind in
    let bound : length front ≤ 1001 = omega (arith, length-append front name, short) in
    let concat = str_concat_lem true front name behind [] held one bound small in
    let (behind', _, measured, copy, over) =
      copied text path (All-append NonZero front name held one) short fits in
    (behind', ground (arith, concat, measured, copy, over))
rebuild_loop-joined (name ∷ other ∷ names) front behind ((one, small), ok) held short fits =
    let tail = joined (other ∷ names) in
    let text = (front ++ name) ++ slash ∷ [] in
    let path = c_string front behind in
    let whole : front ++ (name ++ slash ∷ tail) ≡ text ++ tail =
      sym
        (append_assoc (front ++ name) (slash ∷ []) tail ∙ append_assoc front name (slash ∷ tail)) in
    let total : length text + length tail ≡ length (front ++ (name ++ slash ∷ tail)) =
      sym (ap length whole ∙ length-append text tail) in
    let measure : length text ≡ length front + length name + 1 =
      omega (arith, length-append (front ++ name) (slash ∷ []), length-append front name) in
    let both = All-append NonZero front name held one in
    let ok_text = All-append NonZero (front ++ name) (slash ∷ []) both (omega arith, tt) in
    let first =
      str_concat_lem true front name behind [] held one (omega (arith, measure, total, short))
        small in
    let second =
      str_concat_lem true (front ++ name) (slash ∷ []) [] [] both (omega arith, tt)
        (omega (arith, length-append front name, measure, total, short)) (omega arith) in
    let (behind', same, measured, copy, over) =
      copied text path ok_text (omega (arith, total, short)) (omega (arith, total, fits)) in
    let joint : length (text ++ tail) ≡ length text + length tail = length-append text tail in
    let (behind'', run) =
      rebuild_loop-joined (other ∷ names) text behind' ok ok_text
        (omega (arith, joint, total, short)) (omega (arith, joint, total, fits, same)) in
    (
      behind'',
      ground (arith, first, second, measured, copy, over)
          ∙ (run ∙ ap (λ t. some (c_string t behind'')) (sym whole)),
    )
