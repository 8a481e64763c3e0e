-- ===== src/Filesystem/Operations/Overwriting.antt =====
-- filesystem.c: what `filesystem_write_file` writes to a file that exists is what `filesystem_read_file` reads.
use eitan_os.Base.{
  ℕ, ◌≤◌, ◌<◌, ◌≡◌, ◌≢◌, refl, sym, ap, subst, ◌∙◌, inl, inr, ◌⊎◌, true, false, ◌==◌, ltb, List, [],
  ◌∷◌, All, All-map, All-get_elem?, length, length-set, get_elem?, get_elem?-set_self,
  get_elem?-set_ne, set, some, arith,
}
use mathlib.Core.Option.{some-injective}
use eitan_os.Text.Compare.{c_string}
use eitan_os.Text.Split.{tokens_of}
use eitan_os.Filesystem.Disk.{Disk, read_sectors}
use eitan_os.Filesystem.Disk.Transfer.{most, read_sectors-read_at}
use eitan_os.Filesystem.Disk.Writing.{Holds, accepts}
use eitan_os.Filesystem.Table.{FileEntry, Fs, is_file, plain_file, load_file_table, free_file_table}
use eitan_os.Filesystem.Space.{edited_entry, hidden_entry}
use eitan_os.Filesystem.Space.Placement.{OfFiles, Placed, Sized}
use eitan_os.Filesystem.Space.Update.{Ready, Full, Kept, Edited, edit_file-Edited}
use eitan_os.Filesystem.Paths.{slash}
use eitan_os.Filesystem.Directories.Listing.{DirEntry, listing}
use eitan_os.Filesystem.Directories.Lookup.{InTable}
use eitan_os.Filesystem.Directories.Walk.{Tree, Represents, holds_entries}
use eitan_os.Filesystem.Directories.Found.{found_inside}
use eitan_os.Filesystem.Operations.{filesystem_read_file, filesystem_write_file, freed}
use eitan_os.Filesystem.Operations.Steady.{path-set, Holds-Kept}
use eitan_os.Filesystem.Operations.Mounted.{
  place_of, Mounted, Takes, filesystem_read_file-run, filesystem_write_file-run,
}

InTable-set :
    (table : List FileEntry) (i : ℕ) (e : FileEntry) (es : List DirEntry)
    → All (InTable table) es
    → All (InTable (set table i e)) es
InTable-set table i e es inside =
    All-map (InTable table) (InTable (set table i e)) es
      (λ f here. omega (arith, here, length-set table i e)) inside

-- An edit of a plain file leaves the directories what they hold.
Edited-Represents :
    (fresh : ℕ → List ℕ) (fs fs' : Fs) (tree : Tree) (i : ℕ) (e : FileEntry) (bytes : List ℕ)
    (size : ℕ)
    → Ready fs
    → Represents fs tree
    → get_elem? fs.file_table i ≡ some e
    → holds_entries e ≡ false
    → Edited fresh fs i e bytes size fs'
    → Represents fs' tree
Edited-Represents fresh fs fs' tree i e bytes size ready held found plain edited j f at file holds =
    let (start, table, ready', _, kept, _, drive) = edited in
    let new = edited_entry e start size in
    let there : get_elem? (set fs.file_table i new) j ≡ some f =
      ap (λ t. get_elem? t j) (sym table) ∙ at in
    let other : i ≢ j = λ same.
      let here = get_elem?-set_self fs.file_table i new (found_inside fs.file_table i e found) in
      let equal : new ≡ f =
        some-injective new f (sym here ∙ (ap (get_elem? (set fs.file_table i new)) same ∙ there)) in
      absurd (ground (arith, ap holds_entries equal, holds, plain)) in
    let before : get_elem? fs.file_table j ≡ some f =
      sym (get_elem?-set_ne fs.file_table i j new other) ∙ there in
    let ((measure, small, placed, entries, bytes_held), inside) = held j f before file holds in
    let hidden : get_elem? (set fs.file_table i (hidden_entry e)) j ≡ some f =
      get_elem?-set_ne fs.file_table i j (hidden_entry e) other ∙ before in
    let kept_j =
      All-get_elem? (OfFiles (Kept fs.disk fs'.disk)) (set fs.file_table i (hidden_entry e)) j kept
        hidden file in
    (
      (
        measure,
        small,
        subst (λ n. Placed n f) (sym drive.0) placed,
        entries,
        Holds-Kept fs.disk fs'.disk f (listing (tree j) []) ready.1 placed kept_j bytes_held,
      ),
      subst (λ t. All (InTable t) (tree j)) (sym table)
          (InTable-set fs.file_table i new (tree j) inside),
    )

-- The bytes of a file are read back.
read_held :
    (d : Disk) (e : FileEntry) (bytes target : List ℕ) (k : ℕ)
    → Sized d.sector_count
    → Placed d.sector_count e
    → e.size ≤ most
    → Holds d e.start_sector bytes e.size
    → k < e.size
    → get_elem? (read_sectors d e.start_sector target e.size) k ≡ get_elem? bytes k
read_held d e bytes target k sized (inl empty) small held short =
    absurd (omega (arith, empty, short))
read_held d e bytes target k sized (inr (_, _, inside)) small held short =
    let runs = accepts d e.start_sector e.size (omega (arith, short)) small inside sized.1 in
    let test : ltb k e.size ≡ true = ground (arith, short) in
    read_sectors-read_at d e.start_sector target e.size k small runs
    ∙ (ground (arith, test) ∙ held k short)

-- The state that is loaded behind an operation is the one that it saved.
pub loaded_again :
    (fresh : ℕ → List ℕ) (fs : Fs)
    → (load_file_table fresh fs).file_table ≡ fs.file_table
    → load_file_table fresh (free_file_table fs) ≡ fs
unfolding load_file_table
loaded_again fresh fs same = ap (λ t. record { disk = fs.disk; file_table = t }) same

-- What a later read of the path gives, into any buffer
abbrev pub ReadsBack : (ℕ → List ℕ) → Fs → List ℕ → List ℕ → ℕ → List ℕ → Type 0
ReadsBack fresh fs path bytes size target =
    (buffer : List ℕ) × (filesystem_read_file fresh fs path target
      ≡ some (free_file_table fs, (true, buffer)))
    × ((k : ℕ) → k < size → get_elem? buffer k ≡ get_elem? bytes k)

module _ (fresh : ℕ → List ℕ) (fs : Fs) (tree : Tree) (text behind : List ℕ)
    (mounted : Mounted fresh fs tree) (takes : Takes text behind) (i : ℕ) (e : FileEntry)
    (leads : place_of (load_file_table fresh fs).file_table tree text ≡ some i)
    (found : get_elem? (load_file_table fresh fs).file_table i ≡ some e) (file : is_file e ≡ true)
    (plain : (e.type == plain_file) ≡ true) (bytes : List ℕ) (size : ℕ) (small : size ≤ most)
    (enough : size ≤ length bytes) where
  after_edit :
      (fs' : Fs) (target : List ℕ)
      → Edited fresh (load_file_table fresh fs) i e bytes size fs'
      → Mounted fresh (free_file_table fs') tree
        × ReadsBack fresh (free_file_table fs') (c_string (slash ∷ text) behind) bytes size target
  after_edit fs' target edited =
      let (start, table, ready, held, _, same, _) = edited in
      let loaded = load_file_table fresh fs in
      let new = edited_entry e start size in
      let again = loaded_again fresh fs' same in
      let represents =
        Edited-Represents fresh loaded fs' tree i e bytes size mounted.0 mounted.1 found
          (ground (arith, plain)) edited in
      let mounted' : Mounted fresh (free_file_table fs') tree =
        (subst Ready (sym again) ready, subst (λ fs. Represents fs tree) (sym again) represents) in
      let tables : (load_file_table fresh (free_file_table fs')).file_table
          ≡ set loaded.file_table i new =
        ap (λ (fs : Fs). fs.file_table) again ∙ table in
      let leads' : place_of (load_file_table fresh (free_file_table fs')).file_table tree text
          ≡ some i =
        ap (λ t. place_of t tree text) tables
        ∙ (path-set loaded.file_table tree i e new (tokens_of slash [] (slash ∷ text)) found
              (file, refl, refl)
            ∙ leads) in
      let here =
        get_elem?-set_self loaded.file_table i new (found_inside loaded.file_table i e found) in
      let found' = ap (λ t. get_elem? t i) tables ∙ here in
      let at : get_elem? fs'.file_table i ≡ some new = ap (λ t. get_elem? t i) table ∙ here in
      let placed =
        All-get_elem? (OfFiles (Placed fs'.disk.sector_count)) fs'.file_table i ready.4.0 at refl in
      let whole : new.size ≡ size = omega (arith, small) in
      (
        mounted',
        (
          read_sectors fs'.disk start target new.size,
          filesystem_read_file-run fresh (free_file_table fs') tree text behind mounted' takes i new
              leads' found' refl target,
          λ k short.
              read_held fs'.disk new bytes target k ready.1 placed (omega (arith, whole, small))
                (λ n less. held n (omega (arith, less, whole))) (omega (arith, short, whole)),
        ),
      )

  -- On a mounted disk, writing data of at most 255 sectors to a path that leads to a plain file: either
  -- `find_space_for_file` finds no place for the data and the disk is as before, or it is mounted with the same tree and reading the path gives the data.
  pub filesystem_write_file-filesystem_read_file :
      (target : List ℕ) (type : ℕ)
      → (let path = c_string (slash ∷ text) behind in
          (Full (load_file_table fresh fs) i e size
            × (filesystem_write_file fresh fs path bytes type size
                ≡ some (free_file_table fs, false)))
          ⊎ ((fs' : Fs) × (filesystem_write_file fresh fs path bytes type size ≡ some (fs', true))
              × Mounted fresh fs' tree
              × ReadsBack fresh fs' path bytes size target))
  unfolding load_file_table
  filesystem_write_file-filesystem_read_file target type =
      let loaded = load_file_table fresh fs in
      let run =
        filesystem_write_file-run fresh fs tree text behind mounted takes i e leads found file bytes
          type size plain in
      elim (edit_file-Edited fresh loaded i e bytes size mounted.0 small enough found file) [
        | inl (full, stays) ↦ inl (full, run ∙ ap freed stays)
        | inr (fs', done, edited) ↦
            let (again, reads) = after_edit fs' target edited in
            inr (free_file_table fs', run ∙ ap freed done, again, reads)
      ]
