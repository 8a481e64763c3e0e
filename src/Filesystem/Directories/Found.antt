-- ===== src/Filesystem/Directories/Found.antt =====
-- filesystem.c: a name that `add_file_to_dir` added is a name that `resolve_path` finds.
use eitan_os.Base.{
  ℕ, ◌+◌, ◌*◌, ◌%◌, ◌^◌, ◌≤◌, ◌<◌, ◌≡◌, ◌≢◌, refl, sym, ap, subst, ◌∙◌, inl, inr, ◌⊎◌, true, false,
  ◌==◌, Bool-cases, List, [], ◌∷◌, ◌++◌, All, All-append, All-map, length, length-append,
  length-set, get_elem?, get_elem?-set_self, get_elem?-set_ne, set, some, arith, ℕ_discrete,
  get_elem?_outside, All-get_elem?, dec_lt,
}
use eitan_os.Text.Compare.{NonZero, c_string}
use eitan_os.Text.Split.{ended}
use eitan_os.Filesystem.Disk.Transfer.{most}
use eitan_os.Filesystem.Table.{FileEntry, Fs, is_file}
use eitan_os.Filesystem.Space.{edited_entry}
use eitan_os.Filesystem.Space.Update.{Ready, Full, Edited}
use eitan_os.Filesystem.Space.Placement.{Placed, OfFiles}
use eitan_os.Filesystem.Directories.{resolve_loop, add_file_to_dir}
use eitan_os.Filesystem.Directories.Listing.{DirEntry, IsEntry, listing}
use eitan_os.Text.Same.{same_text, same_text-eq, same_text_refl}
use eitan_os.Filesystem.Directories.Lookup.{usable, lookup, InTable}
use eitan_os.Filesystem.Directories.Loading.{IsDirectory}
use eitan_os.Filesystem.Directories.Walk.{searched}
use eitan_os.Filesystem.Directories.Insertion.{Allocates, add_file_to_dir-Edited}

abbrev pub Unnamed : List ℕ → DirEntry → Type 0
Unnamed name e = e.name ≢ name

-- Where no other entry has the name, the one behind them is found.
lookup_last :
    (table : List FileEntry) (name : List ℕ) (es : List DirEntry) (new : DirEntry)
    → All (Unnamed name) es
    → new.name ≡ name
    → usable table true new.index ≡ true
    → lookup table name true (es ++ new ∷ []) ≡ some new.index
lookup_last table name [] new others named use_it =
    let same : same_text new.name name ≡ true =
      ap (λ t. same_text t name) named ∙ same_text_refl name in
    ground (arith, same, use_it)
lookup_last table name (e ∷ es) new (one, others) named use_it =
    let rest = lookup_last table name es new others named use_it in
    elim (Bool-cases (same_text e.name name)) [
      | inl same ↦ absurd (one (same_text-eq e.name name same))
      | inr differ ↦ ground (arith, differ, rest)
    ]

pub found_inside :
    (table : List FileEntry) (i : ℕ) (e : FileEntry) → get_elem? table i ≡ some e → i < length table
found_inside table i e found = elim (dec_lt i (length table)) [
  | yes inside ↦ inside
  | no out ↦
      let nothing = get_elem?_outside table i (omega (arith, out)) in
      absurd (ground (arith, nothing, found))
]

-- The place of a directory after its edit
Edited-IsDirectory :
    (fresh : ℕ → List ℕ) (fs fs' : Fs) (i : ℕ) (dir : FileEntry) (es : List DirEntry) (size : ℕ)
    → get_elem? fs.file_table i ≡ some dir
    → size ≡ 64 * length es
    → size ≤ most
    → All IsEntry es
    → Edited fresh fs i dir (listing es []) size fs'
    → (e : FileEntry) × (get_elem? fs'.file_table i ≡ some e)
      × (e.size ≡ size)
      × IsDirectory fs'.disk e es
Edited-IsDirectory fresh fs fs' i dir es size found measure small entries edited =
    let (start, table, ready, held, _, _, _) = edited in
    let e = edited_entry dir start size in
    let same : size % 2 ^ 32 ≡ size = omega (arith, small) in
    let at : get_elem? fs'.file_table i ≡ some e =
      ap (λ t. get_elem? t i) table
      ∙ get_elem?-set_self fs.file_table i e (found_inside fs.file_table i dir found) in
    let placed =
      All-get_elem? (OfFiles (Placed fs'.disk.sector_count)) fs'.file_table i ready.4.0 at refl in
    (
      e,
      at,
      same,
      (
        same ∙ measure,
        omega (arith, same, small),
        placed,
        entries,
        λ k short. held k (omega (arith, short, same)),
      ),
    )

-- The tables have the same files.
still_usable :
    (table : List FileEntry) (i j : ℕ) (dir e g : FileEntry)
    → get_elem? table j ≡ some g
    → is_file g ≡ true
    → is_file e ≡ true
    → usable (set table i e) true j ≡ true
still_usable table i j dir e g found file new = elim (ℕ_discrete i j) [
  | yes same ↦
      let at : get_elem? (set table i e) j ≡ some e =
        ap (get_elem? (set table i e)) (sym same)
        ∙ get_elem?-set_self table i e
            (subst (λ n. n < length table) (sym same) (found_inside table j g found)) in
      ground (arith, at, new)
  | no other ↦ let at = get_elem?-set_ne table i j e other ∙ found in ground (arith, at, file)
]

InTable-set :
    (table : List FileEntry) (i : ℕ) (e : FileEntry) (es : List DirEntry)
    → All (InTable table) es
    → All (InTable (set table i e)) es
InTable-set table i e es inside =
    All-map (InTable table) (InTable (set table i e)) es
      (λ f here. omega (arith, here, length-set table i e)) inside

module _ (fresh : ℕ → List ℕ) (fs : Fs) (dir_index i : ℕ) (dir g : FileEntry) (es : List DirEntry)
    (name behind : List ℕ) (allocates : Allocates fresh) (ready : Ready fs)
    (found : get_elem? fs.file_table dir_index ≡ some dir) (file : is_file dir ≡ true)
    (held : IsDirectory fs.disk dir es) (inside : All (InTable fs.file_table) es)
    (room : 64 * length es + 64 ≤ most) (ok : All NonZero name) (short : length name ≤ 59)
    (word : i < 2 ^ 32) (entered : get_elem? fs.file_table i ≡ some g)
    (is_entered : is_file g ≡ true) (unnamed : All (Unnamed name) es) where
  resolved :
      (fs' : Fs) (padding : List ℕ)
      → length name + length padding ≡ 59
      → Edited fresh fs dir_index dir
          (listing (es ++ record { name = name; padding = padding; index = i } ∷ []) [])
          (64 * length es + 64)
          fs'
      → resolve_loop fresh fs' dir_index (ended name ∷ []) ≡ some (some i)
  unfolding resolve_loop
  resolved fs' padding sum edited =
      let new : DirEntry = record { name = name; padding = padding; index = i } in
      let all = es ++ new ∷ [] in
      let entries = All-append IsEntry es (new ∷ []) held.3 ((ok, sum, word), tt) in
      let (start, table, ready', _, _, _, _) = edited in
      let size : 64 * length es + 64 ≡ 64 * length all =
        omega (arith, length-append es (new ∷ [])) in
      let (e, at, long, dir') =
        Edited-IsDirectory fresh fs fs' dir_index dir all (64 * length es + 64) found size room
          entries edited in
      let e' = edited_entry dir start (64 * length es + 64) in
      let members : All (InTable (set fs.file_table dir_index e')) all =
        InTable-set fs.file_table dir_index e' all (
          All-append (InTable fs.file_table) es (new ∷ []) inside
            (found_inside fs.file_table i g entered, tt)) in
      let use_it = still_usable fs.file_table dir_index i dir e' g entered is_entered refl in
      let hit : lookup fs'.file_table name true all ≡ some i =
        ap (λ t. lookup t name true all) table
        ∙ lookup_last (set fs.file_table dir_index e') name es new unnamed refl use_it in
      let search =
        searched fresh fs' e name true all ready'.1 (ok, omega (arith, short)) (omega (arith, long))
          dir' (subst (λ t. All (InTable t) all) (sym table) members) in
      let nonempty : (e.size == 0) ≡ false = ground (arith, long) in
      ground (arith, at, nonempty, search, hit)

  -- A name of at most 59 bytes that no entry of the directory has is added to it, for a file in the table:
  -- either `find_space_for_file` finds no place for the longer directory and nothing changed, or the name now resolves to the file from the directory.
  pub add_file_to_dir-resolve_loop :
      (Full fs dir_index dir (64 * length es + 64)
        × (add_file_to_dir fresh fs dir_index i (c_string name behind) ≡ some (fs, false)))
      ⊎ ((fs' : Fs) × (add_file_to_dir fresh fs dir_index i (c_string name behind)
            ≡ some (fs', true))
          × (resolve_loop fresh fs' dir_index (ended name ∷ []) ≡ some (some i)))
  add_file_to_dir-resolve_loop =
      elim (add_file_to_dir-Edited fresh fs dir_index i dir es name behind allocates ready found
        file held room ok short word) [
          | inl full ↦ inl full
          | inr (fs', padding, sum, run, edited) ↦ inr (fs', run, resolved fs' padding sum edited)
        ]
