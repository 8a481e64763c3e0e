-- ===== src/Filesystem/Space/Update.antt =====
-- filesystem.c: `edit_file` keeps the files placed and apart, and touches no other file's bytes.
use eitan_os.Base.{
  ℕ, ◌+◌, ◌*◌, ◌^◌, ◌≤◌, ◌<◌, ◌≡◌, ◌≢◌, ◌⊎◌, inl, inr, sym, ap, subst, ◌∙◌, true, false, List, All,
  All-set, All-get_elem?, All-zip, length, length-set, set, get_elem?, some, none, Option-cases,
  arith,
}
use eitan_os.Filesystem.Disk.{Disk}
use eitan_os.Filesystem.Disk.Transfer.{most}
use eitan_os.Filesystem.Disk.Writing.{SameOutside, SameDrive, Holds, sectors, write_sectors-Written}
use eitan_os.Filesystem.Table.{FileEntry, Fs, table_entries, is_file, load_file_table}
use eitan_os.Filesystem.Table.Saving.{Words, save_file_table-load_file_table}
use eitan_os.Filesystem.Space.{
  sectors_needed, end_sector, find_space_for_file, hidden_entry, edited_entry, edit_file,
}
use eitan_os.Filesystem.Space.Placement.{
  Placed, Clear, Sized, OfFiles, WellPlaced, Placed-end_sector,
}
use eitan_os.Filesystem.Space.Free.{find_space_for_file-Clear}
use eitan_os.Filesystem.Space.Editing.{hidden-WellPlaced, edited-WellPlaced, set_twice}

-- A disk that can be written, with a loaded table of 32-bit fields whose files are placed and apart
abbrev pub Ready : Fs → Type 0
Ready fs =
    (fs.disk.writable_drive ≡ true)
    × Sized fs.disk.sector_count
    × (length fs.file_table ≡ table_entries)
    × All Words fs.file_table
    × WellPlaced fs.disk.sector_count fs.file_table

-- The search finds no place for a file's new data, with the file's old place open to it.
abbrev pub Full : Fs → ℕ → FileEntry → ℕ → Type 0
Full fs i e size =
    find_space_for_file fs.disk.sector_count (set fs.file_table i (hidden_entry e)) size ≡ none

-- The file's sectors have the same bytes on both disks.
abbrev pub Kept : Disk → Disk → FileEntry → Type 0
Kept d d' e =
    (at : ℕ) → e.start_sector * 512 ≤ at → at < end_sector e * 512 → d'.bytes at ≡ d.bytes at

-- What a successful edit leaves: the state is ready again, the entry has its new place and size, the disk has
-- the bytes there and the table in its sectors, and all other files have theirs.
abbrev pub Edited : (ℕ → List ℕ) → Fs → ℕ → FileEntry → List ℕ → ℕ → Fs → Type 0
Edited fresh fs i e bytes size fs' =
    (start : ℕ) × (fs'.file_table ≡ set fs.file_table i (edited_entry e start size))
    × Ready fs'
    × Holds fs'.disk start bytes size
    × All (OfFiles (Kept fs.disk fs'.disk)) (set fs.file_table i (hidden_entry e))
    × ((load_file_table fresh fs').file_table ≡ fs'.file_table)
    × SameDrive fs.disk fs'.disk

-- The two writes of an edit, behind all files and the table
kept :
    (d d1 d2 : Disk) (start size : ℕ) (e : FileEntry)
    → Sized d.sector_count
    → size ≤ most
    → SameOutside d start (sectors size) d1
    → SameOutside d1 1 20 d2
    → e.start_sector < 2 ^ 32
    → Placed d.sector_count e
    → Clear start (sectors_needed size) e
    → Kept d d2 e
kept d d1 d2 start size e sized small first second word placed clear at low high =
    let nonempty : e.size ≢ 0 = λ empty. absurd (omega (arith, empty, low, high, word)) in
    let (_, _, behind) = Placed-end_sector d.sector_count e sized nonempty placed in
    second at (inr (omega (arith, low, behind))) ∙ first at (outside clear nonempty)
  where
    outside :
        Clear start (sectors_needed size) e
        → e.size ≢ 0
        → (at < start * 512) ⊎ ((start + sectors size) * 512 ≤ at)
    outside (inl empty) nonempty = absurd (nonempty empty)
    outside (inr (inl after)) nonempty = inr (omega (arith, after, low, small))
    outside (inr (inr before)) nonempty = inl (omega (arith, before, high))

-- All other files are kept by the two writes.
All-Kept :
    (d d1 d2 : Disk) (start size : ℕ) (table : List FileEntry)
    → Sized d.sector_count
    → size ≤ most
    → SameOutside d start (sectors size) d1
    → SameOutside d1 1 20 d2
    → All Words table
    → All (OfFiles (Placed d.sector_count)) table
    → All (OfFiles (Clear start (sectors_needed size))) table
    → All (OfFiles (Kept d d2)) table
All-Kept d d1 d2 start size table sized small first second words placed clear =
    let P = OfFiles (Placed d.sector_count) in
    let C = OfFiles (Clear start (sectors_needed size)) in
    let both = All-zip P C (λ e. P e × C e) table (λ e p c. (p, c)) placed clear in
    All-zip Words (λ e. P e × C e) (OfFiles (Kept d d2)) table
      (λ e word both file.
        kept d d1 d2 start size e sized small first second word.2 (both.0 file) (both.1 file))
      words both

-- A state with the same drive, and a table that is as good
pub Ready-again :
    (fs fs' : Fs) (table : List FileEntry)
    → Ready fs
    → SameDrive fs.disk fs'.disk
    → fs'.file_table ≡ table
    → length table ≡ table_entries
    → All Words table
    → WellPlaced fs.disk.sector_count table
    → Ready fs'
Ready-again fs fs' table (writable, sized, _, _, _) (same_count, same_drive) same long words well =
    (
      same_drive ∙ writable,
      subst Sized (sym same_count) sized,
      ap length same ∙ long,
      subst (All Words) (sym same) words,
      subst (λ n. WellPlaced n fs'.file_table) (sym same_count)
          (subst (WellPlaced fs.disk.sector_count) (sym same) well),
    )

module _ (fresh : ℕ → List ℕ) (fs : Fs) (i : ℕ) (e : FileEntry) (bytes : List ℕ) (size : ℕ)
    (ready : Ready fs) (small : size ≤ most) (enough : size ≤ length bytes)
    (found : get_elem? fs.file_table i ≡ some e) (file : is_file e ≡ true) where
  edited :
      (start : ℕ)
      → find_space_for_file fs.disk.sector_count (set fs.file_table i (hidden_entry e)) size
        ≡ some start
      → (fs' : Fs) × (edit_file fs i bytes size ≡ some (fs', true))
        × Edited fresh fs i e bytes size fs'
  unfolding edit_file
  edited start space =
      let (writable, sized, long, words, well) = ready in
      let count = fs.disk.sector_count in
      let hidden = set fs.file_table i (hidden_entry e) in
      let new = edited_entry e start size in
      let table = set fs.file_table i new in
      let well_hidden = hidden-WellPlaced count fs.file_table i e well in
      let (low, high, clear) =
        find_space_for_file-Clear count hidden sized well_hidden size start space in
      let well_edited =
        subst (WellPlaced count) (set_twice fs.file_table i (hidden_entry e) new)
          (edited-WellPlaced count hidden i e start size sized small well_hidden low high clear) in
      let word = All-get_elem? Words fs.file_table i words found in
      let (disk, wrote, (held, outside, (same_count, same_drive))) =
        write_sectors-Written fs.disk start bytes size writable small enough
          (omega (arith, high, small)) sized.1 in
      let middle : Fs = record { disk = disk; file_table = table } in
      let new_word : Words new = (omega arith, word.1, omega (arith, high, sized.1), omega arith) in
      let words' = All-set Words fs.file_table i words new_word in
      let long' = length-set fs.file_table i new ∙ long in
      let (saved, save, loaded, beside, same_table, (same_count', same_drive')) =
        save_file_table-load_file_table fresh middle (same_drive ∙ writable)
          (omega (arith, same_count, sized.0)) (omega (arith, same_count, sized.1)) long' words' in
      let run : edit_file fs i bytes size ≡ some (saved, true) =
        ground (arith, found, file, space, wrote, save) in
      let zero_word : Words (hidden_entry e) = (omega arith, word.1, word.2, word.3) in
      let words_hidden = All-set Words fs.file_table i words zero_word in
      (
        saved,
        run,
        (
          start,
          same_table,
          Ready-again fs saved table ready (same_count' ∙ same_count, same_drive' ∙ same_drive)
              same_table long' words' well_edited,
          λ k short. ap some (beside (start * 512 + k) (inr (omega (arith, low)))) ∙ held k short,
          All-Kept fs.disk disk saved.disk start size hidden sized small outside beside words_hidden
              well_hidden.0 clear,
          loaded ∙ sym same_table,
          (same_count' ∙ same_count, same_drive' ∙ same_drive),
        ),
      )

  -- `edit_file` of a file in a ready state, with data of at most 255 sectors: either `find_space_for_file` finds
  -- no place for it and nothing changed, or the state is ready again, the entry has a new place where the disk has the data, no
  -- other file's bytes changed, and the new table is what will be loaded.
  pub edit_file-Edited :
      (Full fs i e size × (edit_file fs i bytes size ≡ some (fs, false)))
      ⊎ ((fs' : Fs) × (edit_file fs i bytes size ≡ some (fs', true))
          × Edited fresh fs i e bytes size fs')
  unfolding edit_file
  edit_file-Edited =
      let hidden = set fs.file_table i (hidden_entry e) in
      elim (Option-cases (find_space_for_file fs.disk.sector_count hidden size)) [
        | inl full ↦ inl (full, ground (arith, found, file, full))
        | inr (start, space) ↦ inr (edited start space)
      ]
