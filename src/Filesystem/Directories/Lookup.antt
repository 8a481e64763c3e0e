-- ===== src/Filesystem/Directories/Lookup.antt =====
-- filesystem.c: the search in a directory is the search of a list of names.
use eitan_os.Base.{
  ℕ, ◌≤◌, ◌<◌, ◌≡◌, refl, ap, ◌∙◌, Bool, false, ◌==◌, ◌&&◌, ◌||◌, if◌then◌else◌, List, [], ◌∷◌,
  ◌++◌, All, length, drop, get_elem?, get_elem?_inside, Option, none, some, arith,
}
use eitan_os.Text.Compare.{NonZero, c_string}
use eitan_os.Text.Same.{same_text, strcmp-same_text}
use eitan_os.Filesystem.Table.{FileEntry, directory, is_file, le32}
use eitan_os.Filesystem.Directories.{search_dir}
use eitan_os.Filesystem.Directories.Listing.{
  DirEntry, IsEntry, entry_then, listing, drop_entry, index_of_entry,
}

-- The index is of a file, and of a directory unless it is for the last part of a path.
abbrev pub usable : List FileEntry → Bool → ℕ → Bool
usable table is_last_part i = elim (get_elem? table i) [
  | none ↦ false
  | some e ↦ if is_file e then (e.type == directory) || is_last_part else false
]

-- The index of the first usable entry with the name
abbrev pub lookup : List FileEntry → List ℕ → Bool → List DirEntry → Option ℕ
lookup table part is_last_part [] = none
lookup table part is_last_part (e ∷ es) =
    let rest = lookup table part is_last_part es in
    if same_text e.name part && usable table is_last_part e.index then some e.index else rest

abbrev pub InTable : List FileEntry → DirEntry → Type 0
InTable table e = e.index < length table

-- In a directory whose entries have names that end in their 60 bytes, and indices of the table, the loop over
-- the entries of `resolve_path` finds the first with the name that is usable, if there is one.
pub search_dir-lookup :
    (table : List FileEntry) (part behind : List ℕ) (is_last_part : Bool) (es : List DirEntry)
    (rest : List ℕ)
    → All NonZero part
    → length part ≤ 1001
    → All IsEntry es
    → All (InTable table) es
    → search_dir table (c_string part behind) is_last_part (length es) (listing es rest)
      ≡ some (lookup table part is_last_part es)
unfolding search_dir
search_dir-lookup table part behind last [] rest ok short entries inside = refl
search_dir-lookup table part behind last (e ∷ es) rest ok short (one, entries) (here, inside) =
    let (nonzero, long, small) = one in
    let buffer = listing es rest in
    let string = c_string part behind in
    let others = search_dir-lookup table part behind last es rest ok short entries inside in
    let on : search_dir table string last (length es) (drop 64 (entry_then e buffer))
        ≡ some (lookup table part last es) =
      ap (search_dir table string last (length es)) (drop_entry e buffer long) ∙ others in
    let compared =
      strcmp-same_text e.name part (e.padding ++ (le32 e.index ++ buffer)) behind nonzero ok
        (omega (arith, long)) short in
    let (f, found) = get_elem?_inside table e.index here in
    ground (arith, compared, index_of_entry e buffer one, found, on)
