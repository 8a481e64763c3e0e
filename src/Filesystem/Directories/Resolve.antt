-- ===== src/Filesystem/Directories/Resolve.antt =====
-- filesystem.c: `resolve_path` from the text of the path on.
use eitan_os.Base.{
  ℕ, zero, suc, ◌+◌, ◌≤◌, ◌≡◌, refl, ap, ◌∙◌, inl, inr, true, ◌==◌, Bool-cases, List, [], ◌∷◌, All,
  length, get_elem?, Option-cases, some, arith,
}
use eitan_os.Base.Faults.{◌>>=◌}
use eitan_os.Text.{counted, strlen}
use eitan_os.Text.Compare.{NonZero, c_string, strlen_lem, measure_short}
use eitan_os.Text.Tokens.{tokens-IsPart}
use eitan_os.Text.Split.{tokens_of, str_split_lem}
use eitan_os.Filesystem.Table.{FileEntry, Fs, root_directory, is_file, find_root, find_root_from}
use eitan_os.Filesystem.Space.Placement.{Sized}
use eitan_os.Filesystem.Paths.{slash}
use eitan_os.Filesystem.Directories.{resolve_path}
use eitan_os.Filesystem.Directories.Walk.{
  Tree, Represents, walk, holds_entries, DirectoryAt, resolve_loop-walk,
}

-- `find_root` gives the place of an entry of the root's type.
pub find_root_at :
    (k : ℕ) (table : List FileEntry) (i : ℕ)
    → find_root_from k table ≡ some i
    → (n : ℕ) × (e : FileEntry) × (i ≡ k + n)
      × (get_elem? table n ≡ some e)
      × (is_file e ≡ true)
      × (holds_entries e ≡ true)
unfolding find_root_from
find_root_at k [] i h = absurd (ground (arith, h))
find_root_at k (e ∷ table) i h =
    let rest = find_root_from (k + 1) table in
    let later : rest ≡ some i
        → (n : ℕ) × (f : FileEntry) × (i ≡ k + n)
          × (get_elem? (e ∷ table) n ≡ some f)
          × (is_file f ≡ true)
          × (holds_entries f ≡ true) =
      λ run.
        let (n, f, place, found, file, holds) = find_root_at (k + 1) table i run in
        (suc n, f, omega (arith, place), found, file, holds) in
    elim (Bool-cases (is_file e)) [
      | inl file ↦ elim (Bool-cases (e.type == root_directory)) [
        | inl root ↦ (zero, e, ground (arith, h, file, root), refl, file, ground (arith, root))
        | inr other ↦ later (ground (arith, h, file, other))
      ]
      | inr free ↦ later (ground (arith, h, free))
    ]

-- A path of at most 1001 bytes that begins with a slash resolves to where the walk from the root along its
-- parts ends, in any state whose directories hold the entries of a tree.
pub resolve_path-walk :
    (fresh : ℕ → List ℕ) (fs : Fs) (tree : Tree) (text behind : List ℕ)
    → Sized fs.disk.sector_count
    → Represents fs tree
    → All NonZero text
    → length text ≤ 1000
    → resolve_path fresh fs (c_string (slash ∷ text) behind)
      ≡ some (
          find_root fs.file_table
          >>= (λ root. walk fs.file_table tree root (tokens_of slash [] (slash ∷ text))))
unfolding resolve_path
resolve_path-walk fresh fs tree text behind sized held ok short =
    let path = slash ∷ text in
    let nonzero : All NonZero path = (omega arith, ok) in
    let parts = tokens_of slash [] path in
    let are_parts = tokens-IsPart slash [] path tt nonzero (omega (arith, short)) in
    let measured : strlen (c_string path behind) ≡ some (counted (length path)) =
      strlen_lem path behind nonzero
      ∙ ap some (measure_short (length path) (omega (arith, short))) in
    let split = str_split_lem path behind slash nonzero (omega arith) in
    elim (Option-cases (find_root fs.file_table)) [
      | inl rootless ↦ ground (arith, measured, split, rootless)
      | inr (root, found) ↦
          let (n, e, place, at, file, holds) = find_root_at 0 fs.file_table root found in
          let here : DirectoryAt fs root = (
            e,
            ap (get_elem? fs.file_table) {x = root} {y = n} (omega (arith, place)) ∙ at,
            file,
            holds,
          ) in
          let walked = resolve_loop-walk fresh fs tree sized held root parts here are_parts in
          ground (arith, measured, split, found, walked)
    ]
