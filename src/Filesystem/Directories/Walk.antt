-- ===== src/Filesystem/Directories/Walk.antt =====
-- filesystem.c: `resolve_path` is a walk through a tree of directories, along the parts of the path.
use eitan_os.Base.{
  ℕ, ◌/◌, ◌≤◌, ◌≡◌, refl, sym, ap, subst, ◌∙◌, inl, inr, Bool, true, false, ◌==◌, ◌||◌, ◌&&◌,
  if◌then◌else◌, Bool-cases, List, [], ◌∷◌, map, All, length, drop, get_elem?, Option, Option-cases,
  none, some, arith,
}
use mathlib.Core.Option.{some-injective}
use eitan_os.Base.Faults.{◌>>=◌}
use eitan_os.Text.Tokens.{IsPart}
use eitan_os.Text.Split.{ended}
use eitan_os.Filesystem.Table.{FileEntry, Fs, directory, root_directory, is_file}
use eitan_os.Filesystem.Space.Placement.{Sized}
use eitan_os.Filesystem.Directories.{search_dir, dir_bytes, is_empty, resolve_loop}
use eitan_os.Filesystem.Directories.Listing.{DirEntry, listing}
use eitan_os.Text.Same.{same_text}
use eitan_os.Filesystem.Directories.Lookup.{usable, lookup, InTable, search_dir-lookup}
use eitan_os.Filesystem.Directories.Loading.{IsDirectory, read_listing}

-- What the entries of the tree's directories are, by their places in the table
abbrev pub Tree : Type 0
Tree = ℕ → List DirEntry

-- The entry is a directory, or the root.
abbrev pub holds_entries : FileEntry → Bool
holds_entries e = (e.type == directory) || (e.type == root_directory)

-- Every directory in the table has the bytes of its entries in the tree, whose indices are in the table.
abbrev pub Represents : Fs → Tree → Type 0
Represents fs tree =
    (i : ℕ) (e : FileEntry)
    → get_elem? fs.file_table i ≡ some e
    → is_file e ≡ true
    → holds_entries e ≡ true
    → IsDirectory fs.disk e (tree i) × All (InTable fs.file_table) (tree i)

-- From directory to directory, by the first usable entry of the name
abbrev pub walk : List FileEntry → Tree → ℕ → List (List ℕ) → Option ℕ
walk table tree i [] = some i
walk table tree i (part ∷ parts) =
    let on : ℕ → Option ℕ = λ j. walk table tree j parts in
    lookup table part (is_empty parts) (tree i) >>= on

-- The place of a directory in the table
abbrev pub DirectoryAt : Fs → ℕ → Type 0
DirectoryAt fs i =
    (e : FileEntry) × (get_elem? fs.file_table i ≡ some e)
    × (is_file e ≡ true)
    × (holds_entries e ≡ true)

usable_directory : (fs : Fs) (i : ℕ) → usable fs.file_table false i ≡ true → DirectoryAt fs i
usable_directory fs i h = elim (Option-cases (get_elem? fs.file_table i)) [
  | inl out ↦ absurd (ground (arith, h, out))
  | inr (e, found) ↦ (e, found, ground (arith, h, found), ground (arith, h, found))
]

-- What a lookup finds is usable.
lookup-usable :
    (table : List FileEntry) (part : List ℕ) (last : Bool) (es : List DirEntry) (i : ℕ)
    → lookup table part last es ≡ some i
    → usable table last i ≡ true
lookup-usable table part last [] i h = absurd (ground (arith, h))
lookup-usable table part last (e ∷ es) i h =
    let rest = lookup table part last es in
    elim (Bool-cases (same_text e.name part && usable table last e.index)) [
      | inl hit ↦
          let here : e.index ≡ i =
            some-injective e.index i (sym (ap (λ b. if b then some e.index else rest) hit) ∙ h) in
          subst (λ j. usable table last j ≡ true) here (ground (arith, hit))
      | inr miss ↦
          lookup-usable table part last es i
            (sym (ap (λ b. if b then some e.index else rest) miss) ∙ h)
    ]

empty_map : (parts : List (List ℕ)) → is_empty (map ended parts) ≡ is_empty parts
empty_map [] = refl
empty_map (part ∷ parts) = refl

empty_lookup :
    (table : List FileEntry) (part : List ℕ) (last : Bool) (es : List DirEntry)
    → length es ≡ 0
    → lookup table part last es ≡ none
empty_lookup table part last [] h = refl
empty_lookup table part last (e ∷ es) h = absurd (omega (arith, h))

module _ (fresh : ℕ → List ℕ) (fs : Fs) (tree : Tree) where
  abbrev GoesOn : List (List ℕ) → ℕ → Type 0
  GoesOn parts j =
      resolve_loop fresh fs j (map ended parts) ≡ some (walk fs.file_table tree j parts)

  next_part :
      (parts : List (List ℕ)) (j : ℕ)
      → (DirectoryAt fs j → GoesOn parts j)
      → usable fs.file_table (is_empty parts) j ≡ true
      → GoesOn parts j
  unfolding resolve_loop
  next_part [] j step h = refl
  next_part (part ∷ parts) j step h = step (usable_directory fs j h)

  -- One round of the outer loop, behind the search of its directory
  round :
      (parts : List (List ℕ)) (found : Option ℕ)
      → ((j : ℕ) → found ≡ some j → GoesOn parts j)
      → elim found [ none ↦ some none | some j ↦ resolve_loop fresh fs j (map ended parts) ]
        ≡ some (found >>= (λ j. walk fs.file_table tree j parts))
  round parts none next = refl
  round parts (some j) next = next j refl

-- One search, in the bytes of a directory that are read from the disk
pub searched :
    (fresh : ℕ → List ℕ) (fs : Fs) (e : FileEntry) (part : List ℕ) (last : Bool)
    (es : List DirEntry)
    → Sized fs.disk.sector_count
    → IsPart part
    → 1 ≤ e.size
    → IsDirectory fs.disk e es
    → All (InTable fs.file_table) es
    → search_dir fs.file_table (ended part) last (e.size / 64) (dir_bytes fresh fs e)
      ≡ some (lookup fs.file_table part last es)
searched fresh fs e part last es sized (nonzero, short) full dir inside =
    let count : e.size / 64 ≡ length es = omega (arith, dir.0) in
    ap (search_dir fs.file_table (ended part) last (e.size / 64))
      (read_listing fs.disk e es (fresh e.size) sized dir full)
    ∙ (ap
          (λ n.
            search_dir fs.file_table (ended part) last n (listing es (drop e.size (fresh e.size))))
          count
        ∙ search_dir-lookup fs.file_table part [] last es (drop e.size (fresh e.size)) nonzero short
            dir.3 inside)

module _ (fresh : ℕ → List ℕ) (fs : Fs) (tree : Tree) (sized : Sized fs.disk.sector_count)
    (tree_held : Represents fs tree) where
  -- From a directory on, the outer loop of `resolve_path` goes through the tree's directories.
  pub resolve_loop-walk :
      (i : ℕ) (parts : List (List ℕ))
      → DirectoryAt fs i
      → All IsPart parts
      → resolve_loop fresh fs i (map ended parts) ≡ some (walk fs.file_table tree i parts)
  unfolding resolve_loop
  resolve_loop-walk i [] dir ok = refl
  resolve_loop-walk i (part ∷ parts) (e, found, file, holds) (one, ok) =
      let (dir, inside) = tree_held i e found file holds in
      let last = is_empty parts in
      let result = lookup fs.file_table part last (tree i) in
      let next : (j : ℕ) → result ≡ some j → GoesOn fresh fs tree parts j = λ j hit.
        next_part fresh fs tree parts j (λ at. resolve_loop-walk j parts at ok)
          (lookup-usable fs.file_table part last (tree i) j hit) in
      elim (Bool-cases (e.size == 0)) [
        | inl empty ↦
            let nothing =
              empty_lookup fs.file_table part last (tree i) (ground (arith, dir.0, empty)) in
            ground (arith, found, empty, nothing)
        | inr full ↦
            let search =
              searched fresh fs e part last (tree i) sized one (ground (arith, full)) dir inside in
            let flagged =
              ap (λ b. search_dir fs.file_table (ended part) b (e.size / 64) (dir_bytes fresh fs e))
                (empty_map parts)
              ∙ search in
            ground (arith, found, full, flagged) ∙ round fresh fs tree parts result next
      ]
