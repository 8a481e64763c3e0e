-- ===== src/Filesystem/Table/Saving.antt =====
-- filesystem.c: the table that is saved is the one that is loaded again.
use eitan_os.Base.{
  ℕ, suc, ◌+◌, ◌*◌, ◌/◌, ◌%◌, ◌^◌, ◌≤◌, ◌<◌, ◌≡◌, refl, sym, ap, ◌∙◌, true, List, [], ◌∷◌, ◌++◌,
  All, length, drop, get_elem?, some, arith,
}
use eitan_os.Base.Faults.{◌>>=◌}
use mathlib.Core.Option.{some-injective}
use eitan_os.Filesystem.Disk.{slice}
use eitan_os.Filesystem.Disk.Transfer.{read-buffer}
use eitan_os.Filesystem.Disk.Writing.{SameOutside, SameDrive, Holds, accepts, write_sectors-Written}
use eitan_os.Filesystem.Table.{
  FileEntry, Fs, table_entries, table_size, of_le32, table_bytes, table_of, load_file_table,
  save_file_table,
}

-- The fields are `uint32_t`s.
abbrev pub Words : FileEntry → Type 0
Words e =
    (e.magic_number < 2 ^ 32) × (e.type < 2 ^ 32) × (e.start_sector < 2 ^ 32) × (e.size < 2 ^ 32)

pub of_le32_lem :
    (v : ℕ)
    → v < 2 ^ 32
    → of_le32 (v % 256) (v / 2 ^ 8 % 256) (v / 2 ^ 16 % 256) (v / 2 ^ 24 % 256) ≡ v
of_le32_lem v small = omega (arith, small)

abbrev entry : ℕ → ℕ → ℕ → ℕ → FileEntry
entry m t s z = record { magic_number = m; type = t; start_sector = s; size = z }

entry_eq :
    {m m' t t' s s' z z' : ℕ}
    → m ≡ m'
    → t ≡ t'
    → s ≡ s'
    → z ≡ z'
    → entry m t s z ≡ entry m' t' s' z'
entry_eq p q r o = cc

-- Entries whose fields are 32-bit numbers are what is read from the bytes they have.
pub table_of-table_bytes :
    (table : List FileEntry) (rest : List ℕ)
    → All Words table
    → table_of (length table) (table_bytes table ++ rest) ≡ table
unfolding table_of table_bytes
table_of-table_bytes [] rest words = refl
table_of-table_bytes (e ∷ table) rest (word, words) =
    let (magic, type, start, size) = word in
    let one =
      entry_eq (of_le32_lem e.magic_number magic) (of_le32_lem e.type type)
        (of_le32_lem e.start_sector start) (of_le32_lem e.size size) in
    let others = table_of-table_bytes table rest words in
    ap (λ f. f ∷ table_of (length table) (table_bytes table ++ rest)) one ∙ ap (λ es. e ∷ es) others

pub length-table_bytes : (table : List FileEntry) → length (table_bytes table) ≡ 16 * length table
unfolding table_bytes
length-table_bytes [] = refl
length-table_bytes (e ∷ table) = omega (arith, length-table_bytes table)

pub slice_eq :
    (bytes : ℕ → ℕ) (from : ℕ) (src : List ℕ)
    → ((k : ℕ) → k < length src → some (bytes (from + k)) ≡ get_elem? src k)
    → slice bytes from (length src) ≡ src
unfolding slice
slice_eq bytes from [] held = refl
slice_eq bytes from (b ∷ src) held =
    let first : bytes from ≡ b =
      some-injective (bytes from) b (
        ap (λ at. some (bytes at)) {x = from} {y = from + 0} (omega arith)
        ∙ held 0 (omega arith)) in
    let next = λ (k : ℕ) (small : k < length src).
      ap (λ at. some (bytes at)) {x = from + 1 + k} {y = from + suc k} (omega arith)
      ∙ held (suc k) (omega (arith, small)) in
    ap (λ c. c ∷ slice bytes (from + 1) (length src)) first
    ∙ ap (λ l. b ∷ l) (slice_eq bytes (from + 1) src next)

-- A disk that has the table's bytes in its sectors 1 to 20 loads that table.
pub load_lem :
    (fresh : ℕ → List ℕ) (fs : Fs) (table : List FileEntry)
    → 22 ≤ fs.disk.sector_count
    → fs.disk.sector_count < 2 ^ 16
    → length table ≡ table_entries
    → All Words table
    → Holds fs.disk 1 (table_bytes table) table_size
    → (load_file_table fresh fs).file_table ≡ table
unfolding load_file_table
load_lem fresh fs table enough fits long words held =
    let bytes = table_bytes table in
    let measure : length bytes ≡ table_size = omega (arith, length-table_bytes table, long) in
    let runs =
      accepts fs.disk 1 table_size (omega arith) (omega arith) (omega (arith, enough)) fits in
    let got : slice fs.disk.bytes 512 table_size ≡ bytes =
      ap (slice fs.disk.bytes 512) (sym measure)
      ∙ slice_eq fs.disk.bytes 512 bytes (λ k small. held k (omega (arith, small, measure))) in
    ap (table_of table_entries) (
      read-buffer fs.disk 1 (fresh table_size) table_size (omega arith) runs
      ∙ ap (λ l. l ++ drop table_size (fresh table_size)) got)
    ∙ (ap (λ n. table_of n (bytes ++ drop table_size (fresh table_size))) (sym long)
        ∙ table_of-table_bytes table (drop table_size (fresh table_size)) words)

-- A table of 640 entries whose fields are 32-bit numbers is saved if the disk can be written and has 22 sectors
-- at least; loading it gives the same table, whatever the memory for it held, and no sector but those from 1 to
-- 20 changes.
pub save_file_table-load_file_table :
    (fresh : ℕ → List ℕ) (fs : Fs)
    → fs.disk.writable_drive ≡ true
    → 22 ≤ fs.disk.sector_count
    → fs.disk.sector_count < 2 ^ 16
    → length fs.file_table ≡ table_entries
    → All Words fs.file_table
    → (saved : Fs) × (save_file_table fs ≡ some saved)
      × ((load_file_table fresh saved).file_table ≡ fs.file_table)
      × SameOutside fs.disk 1 20 saved.disk
      × (saved.file_table ≡ fs.file_table)
      × SameDrive fs.disk saved.disk
unfolding save_file_table
save_file_table-load_file_table fresh fs writable enough fits long words =
    let bytes = table_bytes fs.file_table in
    let measure : length bytes ≡ table_size =
      omega (arith, length-table_bytes fs.file_table, long) in
    let (disk, run, (held, outside, (same_count, same_drive))) =
      write_sectors-Written fs.disk 1 bytes table_size writable (omega arith)
        (omega (arith, measure)) (omega (arith, enough)) fits in
    let saved : Fs = record fs { disk = disk } in
    (
      saved,
      ap (λ o. o >>= (λ disk. some (record fs { disk = disk }))) run,
      load_lem fresh saved fs.file_table (omega (arith, enough, same_count))
          (omega (arith, fits, same_count)) long words held,
      outside,
      refl,
      (same_count, same_drive),
    )
