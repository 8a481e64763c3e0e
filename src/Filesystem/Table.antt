-- ===== src/Filesystem/Table.antt =====
-- filesystem.c: the entries of the file table, their bytes on the disk, and the search for one.
pub mod Saving
use eitan_os.Base.{
  ℕ, suc, ◌+◌, ◌*◌, ◌/◌, ◌%◌, ◌^◌, Bool, not, ◌==◌, if◌then◌else◌, List, [], ◌∷◌, ◌++◌, set,
  replicate, Option, none, some,
}
use eitan_os.Base.Faults.{◌>>=◌}
use eitan_os.Filesystem.Disk.{Disk, read_sectors, write_sectors}

abbrev pub magic : ℕ
magic = 0xE17A9055

abbrev pub table_sectors : ℕ
table_sectors = 20

-- `FILE_TABLE_ENTRIES`: 32 entries of 16 bytes in each sector
abbrev pub table_entries : ℕ
table_entries = 640

abbrev pub table_size : ℕ
table_size = 10240

-- `file_type_t`
abbrev pub plain_file : ℕ
plain_file = 0

abbrev pub directory : ℕ
directory = 1

abbrev pub root_directory : ℕ
root_directory = 2

-- `file_entry_t`
pub record FileEntry : Type 0 where
  pub magic_number : ℕ
  pub type : ℕ
  pub start_sector : ℕ
  pub size : ℕ

abbrev pub empty_entry : FileEntry
empty_entry = record { magic_number = 0; type = 0; start_sector = 0; size = 0 }

-- A `uint32_t` in memory
abbrev pub le32 : ℕ → List ℕ
le32 v = v % 256 ∷ v / 2 ^ 8 % 256 ∷ v / 2 ^ 16 % 256 ∷ v / 2 ^ 24 % 256 ∷ []

abbrev pub of_le32 : ℕ → ℕ → ℕ → ℕ → ℕ
of_le32 a b c d = a + b * 2 ^ 8 + c * 2 ^ 16 + d * 2 ^ 24

abbrev pub entry_bytes : FileEntry → List ℕ
entry_bytes e = le32 e.magic_number ++ (le32 e.type ++ (le32 e.start_sector ++ le32 e.size))

-- The array of entries as bytes, and back: the first `n` of them.
unfoldable pub table_bytes : List FileEntry → List ℕ
table_bytes [] = []
table_bytes (e ∷ es) = entry_bytes e ++ table_bytes es

unfoldable pub table_of : ℕ → List ℕ → List FileEntry
table_of (suc n)
      (m0 ∷ m1 ∷ m2 ∷ m3 ∷ t0 ∷ t1 ∷ t2 ∷ t3 ∷ s0 ∷ s1 ∷ s2 ∷ s3 ∷ z0 ∷ z1 ∷ z2 ∷ z3 ∷ rest) =
    record {
      magic_number = of_le32 m0 m1 m2 m3;
      type = of_le32 t0 t1 t2 t3;
      start_sector = of_le32 s0 s1 s2 s3;
      size = of_le32 z0 z1 z2 z3;
    }
    ∷ table_of n rest
table_of _ _ = []

-- The disk, and `file_table`, whose entries are none where the pointer is null.
pub record Fs : Type 0 where
  pub disk : Disk
  pub file_table : List FileEntry

abbrev pub free_file_table : Fs → Fs
free_file_table fs = record fs { file_table = [] }

-- `fresh` is what newly allocated memory holds.
unfoldable pub load_file_table : (ℕ → List ℕ) → Fs → Fs
load_file_table fresh fs = record fs {
  file_table = table_of table_entries (read_sectors fs.disk 1 (fresh table_size) table_size);
}

-- `write_sectors(1, file_table, FILE_TABLE_SIZE);`
unfoldable pub save_file_table : Fs → Option Fs
save_file_table fs =
    write_sectors fs.disk 1 (table_bytes fs.file_table) table_size
    >>= (λ disk. some (record fs { disk = disk }))

abbrev pub is_file : FileEntry → Bool
is_file e = e.magic_number == magic

unfoldable pub find_root_from : ℕ → List FileEntry → Option ℕ
find_root_from i [] = none
find_root_from i (e ∷ es) =
    let rest = find_root_from (i + 1) es in
    if not (is_file e) then rest else if e.type == root_directory then some i else rest

abbrev pub find_root : List FileEntry → Option ℕ
find_root table = find_root_from 0 table

-- `none` is the `-1` of no slot
unfoldable pub find_slot_from : ℕ → List FileEntry → Option ℕ
find_slot_from i [] = none
find_slot_from i (e ∷ es) =
    let rest = find_slot_from (i + 1) es in if not (is_file e) then some i else rest

abbrev pub find_file_entry_slot : List FileEntry → Option ℕ
find_file_entry_slot table = find_slot_from 0 table

-- `superblock_t` with the values of `init_superblock`
unfoldable pub init_superblock : Disk → Option Disk
init_superblock d =
    let words16 = λ (v : ℕ). v % 256 ∷ v / 2 ^ 8 % 256 ∷ [] in
    write_sectors d 0
      (le32 magic
        ++ (words16 1 ++ (le32 d.sector_count ++ (le32 1 ++ (le32 table_sectors ++ words16 512)))))
      20

-- The root's entry is the first; the table on the disk is made anew if it has no root.
unfoldable pub ensure_root : (ℕ → List ℕ) → Fs → Option Fs
ensure_root fresh fs =
    let loaded = load_file_table fresh fs in
    let root : FileEntry = record {
      magic_number = magic;
      type = root_directory;
      start_sector = 1 + table_sectors;
      size = 0;
    } in
    let cleared = replicate {A = FileEntry} table_entries empty_entry in
    elim (find_root loaded.file_table) [
      | some _ ↦ some loaded
      | none ↦
          save_file_table (record loaded { file_table = set cleared 0 root })
          >>= (λ saved. some (free_file_table saved))
    ]

-- `filesystem_init` behind the identification of the drive
unfoldable pub filesystem_init : (ℕ → List ℕ) → Fs → Option Fs
filesystem_init fresh fs =
    init_superblock fs.disk >>= (λ disk. ensure_root fresh (record fs { disk = disk }))
