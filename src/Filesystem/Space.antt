-- ===== src/Filesystem/Space.antt =====
-- filesystem.c: the search for free sectors, the shifts of the table and `edit_file`.
pub mod Sorting
pub mod Order
pub mod Placement
pub mod Gaps
pub mod Free
pub mod Editing
pub mod Update
use eitan_os.Base.{
  ℕ, zero, suc, ◌+◌, ◌-◌, ◌*◌, ◌/◌, ◌%◌, ◌^◌, Bool, true, false, not, ◌==◌, ltb, leb, if◌then◌else◌,
  List, [], ◌∷◌, ◌++◌, set, get_elem?, Option, none, some,
}
use eitan_os.Base.Faults.{◌>>=◌}
use eitan_os.Filesystem.Disk.{Disk, write_sectors}
use eitan_os.Filesystem.Table.{
  FileEntry, Fs, magic, table_entries, table_size, table_bytes, is_file, empty_entry,
  save_file_table,
}
use Sorting.{collect, sort}

-- `(file_size + SECTOR_SIZE - 1) / SECTOR_SIZE`, a `size_t` that is stored as a `uint32_t`
abbrev pub sectors_needed : ℕ → ℕ
sectors_needed file_size = (file_size + 511) % 2 ^ 64 / 512 % 2 ^ 32

-- `entry->start_sector + (entry->size + SECTOR_SIZE - 1) / SECTOR_SIZE`
abbrev pub end_sector : FileEntry → ℕ
end_sector e = (e.start_sector + (e.size + 511) % 2 ^ 32 / 512) % 2 ^ 32

-- `uint32_t prev_end = FILE_TABLE_ENTRIES + 1;`
abbrev pub first_end : ℕ
first_end = table_entries + 1

-- `sector_count - 1 - prev_end` as a `uint32_t`
abbrev pub trailing_gap : ℕ → ℕ → ℕ
trailing_gap sector_count prev_end = (sector_count + 2 ^ 33 - 1 - prev_end) % 2 ^ 32

unfoldable pub gap_loop : ℕ → ℕ → ℕ → List FileEntry → Option ℕ
gap_loop sector_count needed prev_end [] =
    if leb needed (trailing_gap sector_count prev_end) then some prev_end else none
gap_loop sector_count needed prev_end (e ∷ es) =
    let over = gap_loop sector_count needed prev_end es in
    let rest = gap_loop sector_count needed (end_sector e) es in
    let gap = if ltb prev_end e.start_sector then e.start_sector - prev_end else 0 in
    if e.size == 0 then over else if leb needed gap then some prev_end else rest

unfoldable pub find_space_for_file : ℕ → List FileEntry → ℕ → Option ℕ
find_space_for_file sector_count table file_size =
    gap_loop sector_count (sectors_needed file_size) first_end (sort (collect table))

-- `file_table[i] = file_table[i - 1];` from the end down to `idx_start`: the last entry is lost.
abbrev pub forward_from : FileEntry → List FileEntry → List FileEntry
forward_from before [] = []
forward_from before (e ∷ es) = before ∷ forward_from e es

abbrev pub shifted_forward : List FileEntry → ℕ → List FileEntry
shifted_forward [] i = []
shifted_forward (e ∷ es) zero = forward_from empty_entry (e ∷ es)
shifted_forward (e ∷ es) (suc i) = e ∷ shifted_forward es i

abbrev pub backward_from : List FileEntry → List FileEntry
backward_from [] = []
backward_from (e ∷ []) = empty_entry ∷ []
backward_from (e ∷ f ∷ es) = f ∷ backward_from (f ∷ es)

abbrev pub shifted_backward : List FileEntry → ℕ → List FileEntry
shifted_backward [] i = []
shifted_backward (e ∷ es) zero = backward_from (e ∷ es)
shifted_backward (e ∷ es) (suc i) = e ∷ shifted_backward es i

unfoldable pub shift_file_entries_forward : Fs → ℕ → Option Fs
shift_file_entries_forward fs idx_start =
    save_file_table (record fs { file_table = shifted_forward fs.file_table idx_start })

-- `max(idx_start - 1, 0)` is the first entry that changes.
unfoldable pub shift_file_entries_backward : Fs → ℕ → Option Fs
shift_file_entries_backward fs idx_start =
    save_file_table (record fs { file_table = shifted_backward fs.file_table (idx_start - 1) })

abbrev pub hidden_entry : FileEntry → FileEntry
hidden_entry e = record e { magic_number = 0 }

-- The entry after `edit_file` gave it its place and size
abbrev pub edited_entry : FileEntry → ℕ → ℕ → FileEntry
edited_entry e start size = record e {
  magic_number = magic;
  start_sector = start;
  size = size % 2 ^ 32;
}

-- The test is of an entry in the table; an index behind the table is `none`.
unfoldable pub edit_file : Fs → ℕ → List ℕ → ℕ → Option (Fs × Bool)
edit_file fs i bytes size = get_elem? fs.file_table i >>= (λ e.
    if not (is_file e)
    then some (fs, false)
    else elim (find_space_for_file fs.disk.sector_count (set fs.file_table i (hidden_entry e))
        size) [
          | none ↦ some (fs, false)
          | some start ↦ write_sectors fs.disk start bytes size >>= (λ disk.
              save_file_table (record {
                disk = disk;
                file_table = set fs.file_table i (edited_entry e start size);
              })
              >>= (λ saved. some (saved, true)))
        ])
