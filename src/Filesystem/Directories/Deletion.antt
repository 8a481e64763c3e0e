-- ===== src/Filesystem/Directories/Deletion.antt =====
-- filesystem.c: the recursive deletion of what a directory holds ends, and leaves none of it in the table.
use eitan_os.Base.{
  ◌⊎◌, Member, here, there, ℕ, zero, suc, ◌/◌, ◌<◌, ◌≡◌, refl, sym, ap, ◌∙◌, inl, inr, true, not,
  ◌==◌, if◌then◌else◌, Bool-cases, List, [], ◌∷◌, All, All-map, length, drop, get_elem?,
  get_elem?_inside, set, Option, some, arith,
}
use mathlib.Core.Option.{some-injective}
use eitan_os.Base.Faults.{◌>>=◌}
use eitan_os.Filesystem.Disk.{read_sectors}
use eitan_os.Filesystem.Table.{FileEntry, Fs, directory, is_file}
use eitan_os.Filesystem.Space.{hidden_entry}
use eitan_os.Filesystem.Space.Placement.{Sized}
use eitan_os.Filesystem.Directories.{delete_entries, delete_directory_entries_recursive}
use eitan_os.Filesystem.Directories.Listing.{
  DirEntry, IsEntry, entry_then, listing, drop_entry, index_of_entry,
}
use eitan_os.Filesystem.Directories.Lookup.{InTable}
use eitan_os.Filesystem.Directories.Loading.{read_listing}
use eitan_os.Filesystem.Directories.Walk.{Tree, Represents, holds_entries}
use eitan_os.Filesystem.Directories.Fewer.{Fewer, Gone, Fewer-trans, Gone-Fewer, hidden-Fewer}
use eitan_os.Filesystem.Directories.Below.{
  Below, Swept, Swept-refl, Swept-trans, Swept-within, Swept-hidden, below-Gone,
}

module _ (tree : Tree) where
  -- What a deletion has to do: it ends, on a table with some of the files, and what the directory lists is gone.
  abbrev Clears : (List FileEntry → ℕ → Option (List FileEntry)) → List FileEntry → ℕ → Type 0
  Clears delete first j =
      (table : List FileEntry) (g : FileEntry)
      → Fewer first table
      → get_elem? table j ≡ some g
      → is_file g ≡ true
      → (g.type == directory) ≡ true
      → (later : List FileEntry) × (delete table j ≡ some later)
        × Swept tree j table later
        × All (λ e. Gone later e.index) (tree j)

  -- One entry of the loop
  abbrev AfterOne : (List FileEntry → ℕ → Option (List FileEntry)) → ℕ → ℕ → List FileEntry → Type 0
  AfterOne delete i index table =
      (later : List FileEntry) × Swept tree i table later
      × Gone later index
      × ((on : List FileEntry → Option (List FileEntry))
          → (get_elem? table index >>= (λ e.
              if not (is_file e)
              then on table
              else (if e.type == directory then delete table index else some table) >>= (λ emptied.
                  get_elem? emptied index >>= (λ now. on (set emptied index (hidden_entry now))))))
            ≡ on later)

  one_entry :
      (delete : List FileEntry → ℕ → Option (List FileEntry)) (first table : List FileEntry) (i : ℕ)
      (entry : DirEntry)
      → Member entry (tree i)
      → Fewer first table
      → entry.index < length first
      → Clears delete first entry.index
      → AfterOne delete i entry.index table
  one_entry delete first table i entry member fewer inside clears =
      let index = entry.index in
      let (e, found) = get_elem?_inside table index (omega (arith, inside, fewer.0)) in
      elim (Bool-cases (is_file e)) [
        | inr free ↦ (
          table,
          Swept-refl tree i table,
          (λ f at. sym (ap is_file (some-injective e f (sym found ∙ at))) ∙ free),
          λ on. ground (arith, found, free),
        )
        | inl file ↦ elim (Bool-cases (e.type == directory)) [
          | inl dir ↦
              let (mid, run, swept, emptied) = clears table e fewer found file dir in
              let (now, at) =
                get_elem?_inside mid index (omega (arith, inside, fewer.0, swept.0.0)) in
              let (_, gone) = hidden-Fewer mid index now at in
              (
                set mid index (hidden_entry now),
                Swept-trans tree i table mid (set mid index (hidden_entry now))
                    (Swept-within tree i table mid entry e member found file dir swept)
                    (Swept-hidden tree i mid entry now member at (λ is_dir. emptied)),
                gone,
                λ on. ground (arith, found, file, dir, run, at),
              )
          | inr plain ↦
              let (_, gone) = hidden-Fewer table index e found in
              (
                set table index (hidden_entry e),
                Swept-hidden tree i table entry e member found
                    (λ is_dir. absurd (ground (arith, is_dir, plain))),
                gone,
                λ on. ground (arith, found, file, plain),
              )
        ]
      ]

  -- The loop over a directory's entries
  delete_entries-Swept :
      (delete : List FileEntry → ℕ → Option (List FileEntry)) (first table : List FileEntry) (i : ℕ)
      (es : List DirEntry) (rest : List ℕ)
      → Fewer first table
      → All IsEntry es
      → All (InTable first) es
      → All (λ e. Member e (tree i)) es
      → All (λ e. Clears delete first e.index) es
      → (later : List FileEntry) × (delete_entries delete (length es) (listing es rest) table
          ≡ some later)
        × Swept tree i table later
        × All (λ e. Gone later e.index) es
  unfolding delete_entries
  delete_entries-Swept delete first table i [] rest fewer ok inside members clears =
      (table, refl, Swept-refl tree i table, tt)
  delete_entries-Swept delete first table i (e ∷ es) rest fewer (one, ok) (near, inside)
        (member, members) (clear, clears) =
      let buffer = listing es rest in
      let (mid, swept, gone, step) = one_entry delete first table i e member fewer near clear in
      let (later, run, swept', others) =
        delete_entries-Swept delete first mid i es rest (Fewer-trans first table mid fewer swept.0)
          ok inside members clears in
      let on : List FileEntry → Option (List FileEntry) =
        λ next. delete_entries delete (length es) (drop 64 (entry_then e buffer)) next in
      let ran : on mid ≡ some later =
        ap (λ l. delete_entries delete (length es) l mid) (drop_entry e buffer one.1) ∙ run in
      (
        later,
        ground (arith, index_of_entry e buffer one) ∙ (step on ∙ ran),
        Swept-trans tree i table mid later swept swept',
        (Gone-Fewer mid later e.index swept'.0 gone, others),
      )

all_members : (es : List DirEntry) → All (λ e. Member e es) es
all_members es = go es es (λ e m. m)
  where
    go :
        (es all : List DirEntry)
        → ((e : DirEntry) → Member e es → Member e all)
        → All (λ e. Member e all) es
    go [] all f = tt
    go (e ∷ es) all f = (f e here, go es all (λ e m. f e (there m)))

-- The directories that a directory lists are of a lower rank.
abbrev pub Under : List FileEntry → (ℕ → ℕ) → ℕ → DirEntry → Type 0
Under table rank i e =
    (g : FileEntry)
    → get_elem? table e.index ≡ some g
    → is_file g ≡ true
    → (g.type == directory) ≡ true
    → rank e.index < rank i

abbrev pub Ranked : List FileEntry → Tree → (ℕ → ℕ) → Type 0
Ranked table tree rank = (i : ℕ) → All (Under table rank i) (tree i)

-- Nothing is left below the directory, and all else is as it was.
abbrev pub Emptied : Tree → List FileEntry → ℕ → List FileEntry → Type 0
Emptied tree table i later =
    ((j : ℕ) → Below table tree i j → Gone later j)
    × ((j : ℕ) → (get_elem? later j ≡ get_elem? table j) ⊎ Below table tree i j)

module _ (fresh : ℕ → List ℕ) (fs : Fs) (tree : Tree) (rank : ℕ → ℕ)
    (sized : Sized fs.disk.sector_count) (held : Represents fs tree)
    (ranked : Ranked fs.file_table tree rank) where
  delete_directory_entries_recursive-Swept :
      (fuel i : ℕ) (table : List FileEntry) (dir : FileEntry)
      → rank i < fuel
      → Fewer fs.file_table table
      → get_elem? table i ≡ some dir
      → is_file dir ≡ true
      → holds_entries dir ≡ true
      → (later : List FileEntry) × (delete_directory_entries_recursive fuel fresh fs.disk table i
          ≡ some later)
        × Swept tree i table later
        × All (λ e. Gone later e.index) (tree i)
  unfolding delete_directory_entries_recursive
  delete_directory_entries_recursive-Swept zero i table dir enough fewer at file holds =
      absurd (omega (arith, enough))
  delete_directory_entries_recursive-Swept (suc fuel) i table dir enough fewer at file holds =
      let (is_dir, inside) = held i dir (fewer.1 i dir at file) file holds in
      elim (Bool-cases (dir.size == 0)) [
        | inl empty ↦ (
          table,
          ground (arith, at, empty),
          Swept-refl tree i table,
          nothing_listed table (tree i) (ground (arith, is_dir.0, empty)),
        )
        | inr full ↦
            let delete = delete_directory_entries_recursive fuel fresh fs.disk in
            let clears =
              All-map (Under fs.file_table rank i) (λ e. Clears tree delete fs.file_table e.index)
                (tree i)
                (λ e under next g fewer at file is_dir.
                  delete_directory_entries_recursive-Swept fuel e.index next g
                    (omega (arith, enough, under g (fewer.1 e.index g at file) file is_dir)) fewer
                    at file (ground (arith, is_dir)))
                (ranked i) in
            let rest = drop dir.size (fresh dir.size) in
            let (later, run, less, gone) =
              delete_entries-Swept tree delete fs.file_table table i (tree i) rest fewer is_dir.3
                inside (all_members (tree i)) clears in
            let count : dir.size / 64 ≡ length (tree i) = omega (arith, is_dir.0) in
            let read =
              read_listing fs.disk dir (tree i) (fresh dir.size) sized is_dir
                (ground (arith, full)) in
            let whole =
              ap
                (λ n.
                  delete_entries delete n
                    (read_sectors fs.disk dir.start_sector (fresh dir.size) dir.size) table)
                count
              ∙ (ap (λ l. delete_entries delete (length (tree i)) l table) read ∙ run) in
            (later, ground (arith, at, full, whole), less, gone)
      ]
    where
      nothing_listed :
          (table : List FileEntry) (es : List DirEntry)
          → length es ≡ 0
          → All (λ e. Gone table e.index) es
      nothing_listed table [] h = tt
      nothing_listed table (e ∷ es) h = absurd (omega (arith, h))

  -- In a tree of directories in which every one has a rank above those it lists, the recursive deletion of what
  -- a directory holds ends, with a fuel above the directory's rank, from any table that has some of the files.
  -- No file below the directory, in it or in a directory below it, is left, and every other entry is as before.
  pub delete_directory_entries_recursive-Emptied :
      (fuel i : ℕ) (table : List FileEntry) (dir : FileEntry)
      → rank i < fuel
      → Fewer fs.file_table table
      → get_elem? table i ≡ some dir
      → is_file dir ≡ true
      → holds_entries dir ≡ true
      → (later : List FileEntry) × (delete_directory_entries_recursive fuel fresh fs.disk table i
          ≡ some later)
        × Emptied tree table i later
  delete_directory_entries_recursive-Emptied fuel i table dir enough fewer at file holds =
      let (later, run, (less, closed, only), gone) =
        delete_directory_entries_recursive-Swept fuel i table dir enough fewer at file holds in
      (later, run, (λ j below. below-Gone tree table later i j less closed gone below, only))
