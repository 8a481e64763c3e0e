-- ===== src/Filesystem/Directories.antt =====
-- filesystem.c: directories as files of 64-byte entries, a name of 60 bytes and an index of the table. `fresh`
-- is what newly allocated memory holds, and the allocations are those that succeed.
pub mod Listing
pub mod Lookup
pub mod Shrink
pub mod Extend
pub mod Added
pub mod Loading
pub mod Walk
pub mod Resolve
pub mod Insertion
pub mod Found
pub mod Removal
pub mod Fewer
pub mod Below
pub mod Deletion
use eitan_os.Base.{
  ℕ, zero, suc, ◌+◌, ◌-◌, ◌*◌, ◌/◌, ◌%◌, ◌^◌, Bool, true, false, not, ◌==◌, ◌||◌, ltb, leb,
  if◌then◌else◌, List, [], ◌∷◌, ◌++◌, length, drop, set, get_elem?, Option, none, some,
}
use eitan_os.Base.Faults.{◌>>=◌}
use eitan_os.Text.{Length, counted, minus_one, same_length, strlen, strcmp, str_split}
use eitan_os.Filesystem.Disk.{Disk, read_sectors}
use eitan_os.Filesystem.Table.{FileEntry, Fs, directory, is_file, le32, of_le32, find_root}
use eitan_os.Filesystem.Space.{edit_file, hidden_entry}
use eitan_os.Filesystem.Paths.{slash, name_length, write_at}
use eitan_os.Text.Build.{copy_bytes}

-- `sizeof(dir_entry_t)`
abbrev pub dir_entry_size : ℕ
dir_entry_size = 64

-- `dir_entries[j].file_table_index`, where the entry is what the memory begins with; its name begins there too.
abbrev pub le32_of : List ℕ → Option ℕ
le32_of (a ∷ b ∷ c ∷ d ∷ rest) = some (of_le32 a b c d)
le32_of _ = none

abbrev pub file_table_index : List ℕ → Option ℕ
file_table_index entry = le32_of (drop 60 entry)

-- The inner loop of `resolve_path`. A result of `none` inside is a name that was not found.
unfoldable pub search_dir : List FileEntry → List ℕ → Bool → ℕ → List ℕ → Option (Option ℕ)
search_dir table part is_last_part zero entries = some none
search_dir table part is_last_part (suc n) entries =
    let rest = search_dir table part is_last_part n (drop 64 entries) in
    strcmp entries part >>= (λ same.
      if not same
      then rest
      else file_table_index entries >>= (λ file_index. get_elem? table file_index >>= (λ e.
        if not (is_file e)
        then rest
        else if not ((e.type == directory) || is_last_part)
        then rest
        else some (some file_index))))

abbrev pub dir_bytes : (ℕ → List ℕ) → Fs → FileEntry → List ℕ
dir_bytes fresh fs e = read_sectors fs.disk e.start_sector (fresh e.size) e.size

abbrev pub is_empty {ℓ} : {A : Type ℓ} → List A → Bool
is_empty [] = true
is_empty (x ∷ xs) = false

-- The outer loop, over the parts that are left
unfoldable pub resolve_loop : (ℕ → List ℕ) → Fs → ℕ → List (List ℕ) → Option (Option ℕ)
resolve_loop fresh fs current_index [] = some (some current_index)
resolve_loop fresh fs current_index (part ∷ parts) =
    let on : ℕ → Option (Option ℕ) = λ file_index. resolve_loop fresh fs file_index parts in
    get_elem? fs.file_table current_index >>= (λ dir.
      if dir.size == 0
      then some none
      else search_dir fs.file_table part (is_empty parts) (dir.size / 64) (dir_bytes fresh fs dir)
        >>= (λ found. elim found [ none ↦ some none | some file_index ↦ on file_index ]))

abbrev pub begins_with_slash : List ℕ → Option Bool
begins_with_slash [] = none
begins_with_slash (c ∷ path) = some (c == slash)

-- `none` inside is the `false` of the source.
unfoldable pub resolve_path : (ℕ → List ℕ) → Fs → List ℕ → Option (Option ℕ)
resolve_path fresh fs path = strlen path >>= (λ len.
    if same_length len (counted 0)
    then some none
    else begins_with_slash path >>= (λ absolute.
      if not absolute
      then some none
      else str_split path slash >>= (λ (count, parts). elim (find_root fs.file_table) [
        | none ↦ some none
        | some root ↦ resolve_loop fresh fs root parts
      ])))

-- `min(strlen(name) + 1, FILE_NAME_LENGTH)`
abbrev pub copied_name : Length → ℕ
copied_name (counted n) = if ltb (n + 1) name_length then n + 1 else name_length
copied_name minus_one = 0

-- The entries that are there, read if there are any. A buffer that is shorter than what is read is `none`.
abbrev pub loaded_entries : Fs → FileEntry → List ℕ → Option (List ℕ)
loaded_entries fs dir buffer =
    if ltb (length buffer) dir.size
    then none
    else some
        (if leb 1 dir.size then read_sectors fs.disk dir.start_sector buffer dir.size else buffer)

-- The writes to the new entry at byte `at`: its index, its name and the zero in the name's last place
abbrev pub with_entry : List ℕ → ℕ → ℕ → List ℕ → List ℕ
with_entry entries at file_index name =
    set (write_at (write_at entries (at + 60) (le32 file_index)) at name) (at + 59) 0

unfoldable pub add_file_to_dir : (ℕ → List ℕ) → Fs → ℕ → ℕ → List ℕ → Option (Fs × Bool)
add_file_to_dir fresh fs dir_index file_index name = get_elem? fs.file_table dir_index >>= (λ dir.
    let count = dir.size / 64 + 1 in
    loaded_entries fs dir (fresh (count * 64)) >>= (λ entries. strlen name >>= (λ len.
      copy_bytes (copied_name len) name >>= (λ bytes.
        edit_file fs dir_index (with_entry entries ((count - 1) * 64) file_index bytes)
          (count * 64)))))

-- The entries but the removed one
unfoldable pub kept_entries : ℕ → ℕ → List ℕ → Option (List ℕ)
kept_entries file_index zero entries = some []
kept_entries file_index (suc n) entries = file_table_index entries >>= (λ index.
    kept_entries file_index n (drop 64 entries) >>= (λ rest.
      if index == file_index
      then some rest
      else copy_bytes 64 entries >>= (λ entry. some (entry ++ rest))))

-- `new_entries_count * sizeof(dir_entry_t)`, where one less than no entry is the greatest `size_t`
abbrev pub shrunk_size : ℕ → ℕ
shrunk_size count = (count + 2 ^ 64 - 1) * 64 % 2 ^ 64

-- Copying more entries than `new_entries` has room for is `none`. Where nothing was there, the allocation of
-- all but 64 bytes of memory has no room for anything.
unfoldable pub remove_file_from_dir : (ℕ → List ℕ) → Fs → ℕ → ℕ → Option (Fs × Bool)
remove_file_from_dir fresh fs dir_index file_index = get_elem? fs.file_table dir_index >>= (λ dir.
    let count = dir.size / 64 in
    let new_entries = if count == 0 then [] else fresh (shrunk_size count) in
    loaded_entries fs dir (fresh (count * 64)) >>= (λ old_entries.
      kept_entries file_index count old_entries >>= (λ kept.
        if ltb (length new_entries) (length kept)
        then none
        else edit_file fs dir_index (kept ++ drop (length kept) new_entries) (shrunk_size count))))

-- One directory's loop, with `delete` for what happens to the directories in it
unfoldable pub delete_entries :
    (List FileEntry → ℕ → Option (List FileEntry))
    → ℕ
    → List ℕ
    → List FileEntry
    → Option (List FileEntry)
delete_entries delete zero entries table = some table
delete_entries delete (suc n) entries table =
    let on : List FileEntry → Option (List FileEntry) =
      λ next. delete_entries delete n (drop 64 entries) next in
    file_table_index entries >>= (λ index. get_elem? table index >>= (λ e.
      if not (is_file e)
      then on table
      else (if e.type == directory then delete table index else some table) >>= (λ emptied.
          get_elem? emptied index >>= (λ now. on (set emptied index (hidden_entry now))))))

-- `fuel` bounds the depth of the recursion. Running out of it is `none`.
unfoldable pub delete_directory_entries_recursive :
    ℕ → (ℕ → List ℕ) → Disk → List FileEntry → ℕ → Option (List FileEntry)
delete_directory_entries_recursive zero fresh disk table dir_index = none
delete_directory_entries_recursive (suc fuel) fresh disk table dir_index =
    get_elem? table dir_index >>= (λ dir.
      if dir.size == 0
      then some table
      else delete_entries (delete_directory_entries_recursive fuel fresh disk) (dir.size / 64)
          (read_sectors disk dir.start_sector (fresh dir.size) dir.size) table)
