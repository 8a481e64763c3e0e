-- ===== src/Shell/Absolute.antt =====
-- programs/shell/c.c: from what a command is given to the path that it hands to the file system.
use eitan_os.Base.{
  ℕ, ◌+◌, ◌≤◌, ◌≡◌, refl, sym, ap, subst, ◌∙◌, inl, inr, true, ◌==◌, ==→eq, if◌then◌else◌,
  Bool-cases, List, [], ◌∷◌, ◌++◌, append_nil, All, All-append, length, length-append, some, arith,
}
use eitan_os.Base.Faults.{◌>>=◌}
use eitan_os.Text.Compare.{NonZero, c_string}
use eitan_os.Text.Split.{ended}
use eitan_os.Text.Concats.{strdup, strdup_lem, str_concats, str_concats_lem}
use eitan_os.Filesystem.Paths.{is_valid_path}
use eitan_os.Shell.{slash, parse_path, join_working_dir}
use eitan_os.Shell.Parse.{names_left}
use eitan_os.Shell.Valid.{Fits, parse_path-is_valid_path}

-- A path from the root is taken as it is, and any other from the working directory.
abbrev pub absolute : List ℕ → List ℕ → List ℕ
absolute dir [] = dir ++ slash ∷ []
absolute dir (c ∷ path) = if c == slash then c ∷ path else dir ++ slash ∷ c ∷ path

-- `join_working_dir` makes a new string of the absolute path.
pub join_working_dir-absolute :
    (dir behind path behind' : List ℕ)
    → All NonZero dir
    → All NonZero path
    → length dir + 1 + length path ≤ 1001
    → join_working_dir (c_string dir behind) (c_string path behind')
      ≡ some (ended (absolute dir path))
unfolding join_working_dir
join_working_dir-absolute dir behind [] behind' held ok short =
    str_concats_lem dir behind ((slash ∷ [], []) ∷ ([], behind') ∷ []) held
      ((omega arith, tt), (tt, tt)) (omega (arith, short))
join_working_dir-absolute dir behind (c ∷ path) behind' held (one, ok) short =
    let given = c_string (c ∷ path) behind' in
    let far = str_concats (c_string dir behind ∷ (slash ∷ 0 ∷ []) ∷ given ∷ []) in
    elim (Bool-cases (c == slash)) [
      | inl e ↦
          ap (λ b. if b then strdup given else far) e
          ∙ strdup_lem (c ∷ path) behind' (one, ok) (omega (arith, short))
          ∙ ap (λ b. some (ended (if b then c ∷ path else dir ++ slash ∷ c ∷ path))) (sym e)
      | inr e ↦
          let strings = (slash ∷ [], []) ∷ (c ∷ path, behind') ∷ [] in
          let size = length-append path [] in
          ap (λ b. if b then strdup given else far) e
          ∙ str_concats_lem dir behind strings held ((omega arith, tt), ((one, ok), tt))
              (omega (arith, size, short))
          ∙ ap (λ l. some (ended (dir ++ slash ∷ c ∷ l))) (append_nil path)
          ∙ ap (λ b. some (ended (if b then c ∷ path else dir ++ slash ∷ c ∷ path))) (sym e)
    ]

-- An absolute path begins with a slash.
begun :
    (dir path : List ℕ)
    → All NonZero dir
    → All NonZero path
    → length dir + 2 + length path ≤ 1001
    → (text : List ℕ) × (absolute (slash ∷ dir) path ≡ slash ∷ text)
      × All NonZero text
      × (length text ≤ 1000)
begun dir [] held ok short = (
  dir ++ slash ∷ [],
  refl,
  All-append NonZero dir (slash ∷ []) held (omega arith, tt),
  omega (arith, length-append dir (slash ∷ []), short),
)
begun dir (c ∷ path) held (one, ok) short = elim (Bool-cases (c == slash)) [
  | inl e ↦ (
    path,
    ap (λ b. if b then c ∷ path else slash ∷ dir ++ slash ∷ c ∷ path) e
        ∙ ap (λ d. d ∷ path) (==→eq c slash e),
    ok,
    omega (arith, short),
  )
  | inr e ↦ (
    dir ++ slash ∷ c ∷ path,
    ap (λ b. if b then c ∷ path else slash ∷ dir ++ slash ∷ c ∷ path) e,
    All-append NonZero dir (slash ∷ c ∷ path) held (omega arith, (one, ok)),
    omega (arith, length-append dir (slash ∷ c ∷ path), short),
  )
]

-- What a command makes of a path with `join_working_dir` and `parse_path` is valid for the file system, whatever
-- the path, if the working directory begins with a slash, both have at most 1000 bytes together, the absolute path
-- is longer than a slash, and the names left of it have at most 60 bytes each.
pub join_working_dir-is_valid_path :
    (dir behind path behind' : List ℕ)
    → All NonZero dir
    → All NonZero path
    → length dir + 2 + length path ≤ 1001
    → 2 ≤ length (absolute (slash ∷ dir) path)
    → All Fits (names_left (absolute (slash ∷ dir) path))
    → (out : List ℕ) × ((join_working_dir (c_string (slash ∷ dir) behind) (c_string path behind')
          >>= parse_path)
        ≡ some out)
      × (is_valid_path out ≡ some true)
join_working_dir-is_valid_path dir behind path behind' held ok short long fits =
    let joined =
      join_working_dir-absolute (slash ∷ dir) behind path behind' (omega arith, held) ok
        (omega (arith, short)) in
    let (text, same, ok_text, bound) = begun dir path held ok short in
    let (out, run, valid) =
      parse_path-is_valid_path text [] ok_text (omega (arith, ap length same, long)) bound
        (subst (λ l. All Fits (names_left l)) same fits) in
    (out, ap (λ o. o >>= parse_path) (joined ∙ ap (λ l. some (ended l)) same) ∙ run, valid)
