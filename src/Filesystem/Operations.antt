-- ===== src/Filesystem/Operations.antt =====
-- filesystem.c: the operations that the rest of the kernel calls, each on a path. A result of `none` is an
-- access out of range; the Boolean, or the option inside, is what the function returns.
pub mod Steady
pub mod Mounted
pub mod Overwriting
pub mod Mounting
use eitan_os.Base.{
  ℕ, zero, suc, ◌-◌, ◌/◌, ◌%◌, ◌^◌, Bool, true, false, not, ◌==◌, ltb, if◌then◌else◌, List, [], ◌∷◌,
  drop, set, get_elem?, Option, none, some,
}
use eitan_os.Base.Faults.{◌>>=◌}
use eitan_os.Text.{strlen}
use eitan_os.Filesystem.Disk.{read_sectors, write_sectors}
use eitan_os.Filesystem.Table.{
  FileEntry, Fs, magic, plain_file, directory, is_file, find_file_entry_slot, load_file_table,
  free_file_table, save_file_table,
}
use eitan_os.Filesystem.Space.{find_space_for_file, edit_file, hidden_entry}
use eitan_os.Filesystem.Paths.{name_length, is_valid_path, split_path, write_at}
use eitan_os.Text.Build.{copy_bytes}
use eitan_os.Filesystem.Directories.{
  file_table_index, resolve_path, copied_name, add_file_to_dir, remove_file_from_dir,
  delete_directory_entries_recursive,
}

-- `file_metadata_t`
pub record Metadata : Type 0 where
  pub size : ℕ
  pub type : ℕ
  pub name : List ℕ

-- What is done with a path that is valid; else the state stays and the result is `refused`.
abbrev pub on_valid {ℓ} : {A : Type ℓ} → List ℕ → Fs → A → Option (Fs × A) → Option (Fs × A)
on_valid path fs refused run =
    is_valid_path path >>= (λ valid. if valid then run else some (fs, refused))

-- What is done with the index a path has in the table; without one the table is freed.
abbrev pub on_resolved {ℓ} :
    {A : Type ℓ} → (ℕ → List ℕ) → List ℕ → Fs → A → (ℕ → Option (Fs × A)) → Option (Fs × A)
on_resolved fresh path fs refused run =
    resolve_path fresh fs path
    >>= (λ found. elim found [ none ↦ some (free_file_table fs, refused) | some i ↦ run i ])

-- `target` is what is at `data_out`, and the last component what is there afterwards.
unfoldable pub filesystem_read_file :
    (ℕ → List ℕ) → Fs → List ℕ → List ℕ → Option (Fs × (Bool × List ℕ))
filesystem_read_file fresh fs path target =
    let loaded = load_file_table fresh fs in
    let refused : Bool × List ℕ = (false, target) in
    on_valid path fs refused (
      on_resolved fresh path loaded refused (λ i. get_elem? loaded.file_table i >>= (λ e.
        if not (is_file e)
        then some (free_file_table loaded, refused)
        else some
            (free_file_table loaded, (true, read_sectors fs.disk e.start_sector target e.size)))))

-- The metadata's name has `name_length` bytes, of which the copy and the zero at the end overwrite some.
unfoldable pub filesystem_read_file_metadata :
    (ℕ → List ℕ) → Fs → List ℕ → Metadata → Option (Fs × (Bool × Metadata))
filesystem_read_file_metadata fresh fs path out =
    let loaded = load_file_table fresh fs in
    let refused : Bool × Metadata = (false, out) in
    on_valid path fs refused (
      on_resolved fresh path loaded refused (λ i. get_elem? loaded.file_table i >>= (λ e.
        if not (is_file e)
        then some (free_file_table loaded, refused)
        else split_path path >>= (λ (dir_path, name). strlen name >>= (λ len.
          copy_bytes (copied_name len) name >>= (λ bytes. some (
            free_file_table loaded,
            (
              true,
              record {
                size = e.size;
                type = e.type;
                name = set (write_at out.name 0 bytes) (name_length - 1) 0;
              },
            ),
          )))))))

unfoldable pub filesystem_file_exists : (ℕ → List ℕ) → Fs → List ℕ → Option (Fs × Bool)
filesystem_file_exists fresh fs path =
    let loaded = load_file_table fresh fs in
    on_valid path fs false (
      on_resolved fresh path loaded false
        (λ i. get_elem? loaded.file_table i >>= (λ e. some (free_file_table loaded, is_file e))))

-- The table is freed behind a step that says whether it succeeded.
abbrev pub freed : Option (Fs × Bool) → Option (Fs × Bool)
freed step = step >>= (λ (fs, success). some (free_file_table fs, success))

-- `filesystem_write_file` behind its test that the file exists, which it does not
unfoldable pub write_new_file : (ℕ → List ℕ) → Fs → List ℕ → List ℕ → ℕ → ℕ → Option (Fs × Bool)
write_new_file fresh fs path bytes type size =
    let refused : Option (Fs × Bool) = some (free_file_table fs, false) in
    elim (find_space_for_file fs.disk.sector_count fs.file_table size) [
      | none ↦ refused
      | some start ↦ elim (find_file_entry_slot fs.file_table) [
        | none ↦ refused
        | some slot ↦
            let entry : FileEntry = record {
              magic_number = magic;
              type = type;
              start_sector = start;
              size = size % 2 ^ 32;
            } in
            let entered : Fs = record fs { file_table = set fs.file_table slot entry } in
            split_path path >>= (λ (dir_path, name).
              on_resolved fresh dir_path entered false (λ dir_index.
                add_file_to_dir fresh entered dir_index slot name >>= (λ (added, success).
                  if not success
                  then some (free_file_table added, false)
                  else write_sectors added.disk start bytes size
                    >>= (λ disk. some (record { disk = disk; file_table = [] }, true)))))
      ]
    ]

unfoldable pub filesystem_write_file :
    (ℕ → List ℕ) → Fs → List ℕ → List ℕ → ℕ → ℕ → Option (Fs × Bool)
filesystem_write_file fresh fs path bytes type size = on_valid path fs false (
    filesystem_file_exists fresh fs path >>= (λ (tested, exists_already).
      let loaded = load_file_table fresh tested in
      if not exists_already
      then write_new_file fresh loaded path bytes type size
      else on_resolved fresh path loaded false (λ i. get_elem? loaded.file_table i >>= (λ e.
        if not (e.type == plain_file)
        then some (free_file_table loaded, false)
        else freed (edit_file loaded i bytes size)))))

-- `file_table[i].magic_number = null;` and the table saved and freed
unfoldable pub forget_entry : Fs → ℕ → Option (Fs × Bool)
forget_entry fs i = get_elem? fs.file_table i >>= (λ e.
    save_file_table (record fs { file_table = set fs.file_table i (hidden_entry e) })
    >>= (λ saved. some (free_file_table saved, true)))

-- The end of both deletions: entry `i` leaves its directory's listing and the table.
unfoldable pub remove_entry : (ℕ → List ℕ) → Fs → List ℕ → ℕ → Option (Fs × Bool)
remove_entry fresh fs path i = split_path path >>= (λ (dir_path, name).
    on_resolved fresh dir_path fs false (λ dir_index.
      remove_file_from_dir fresh fs dir_index i >>= (λ (removed, success).
        if not success then some (free_file_table removed, false) else forget_entry removed i)))

unfoldable pub filesystem_delete_file : (ℕ → List ℕ) → Fs → List ℕ → Option (Fs × Bool)
filesystem_delete_file fresh fs path =
    let loaded = load_file_table fresh fs in
    on_valid path fs false
      (on_resolved fresh path loaded false (λ i. remove_entry fresh loaded path i))

unfoldable pub filesystem_create_directory : (ℕ → List ℕ) → Fs → List ℕ → Option (Fs × Bool)
filesystem_create_directory fresh fs path = filesystem_write_file fresh fs path (0 ∷ []) directory 0

-- `fuel` is for the recursive deletion.
unfoldable pub filesystem_delete_directory : ℕ → (ℕ → List ℕ) → Fs → List ℕ → Option (Fs × Bool)
filesystem_delete_directory fuel fresh fs path =
    let loaded = load_file_table fresh fs in
    on_valid path fs false (
      on_resolved fresh path loaded false (λ i. get_elem? loaded.file_table i >>= (λ e.
        if not (e.type == directory)
        then some (free_file_table loaded, false)
        else delete_directory_entries_recursive fuel fresh loaded.disk loaded.file_table i
          >>= (λ emptied. remove_entry fresh (record loaded { file_table = emptied }) path i))))

-- The results of the two steps are not looked at.
unfoldable pub filesystem_move_file : (ℕ → List ℕ) → Fs → List ℕ → List ℕ → Option (Fs × Bool)
filesystem_move_file fresh fs path new_path =
    let loaded = load_file_table fresh fs in
    on_valid path fs false (
      on_valid new_path fs false (
        split_path path >>= (λ (dir_path, name).
          split_path new_path >>= (λ (new_dir_path, new_name).
            on_resolved fresh path loaded false (λ i.
              on_resolved fresh dir_path loaded false (λ dir_index.
                on_resolved fresh new_dir_path loaded false (λ new_dir_index.
                  remove_file_from_dir fresh loaded dir_index i >>= (λ (removed, _).
                    add_file_to_dir fresh removed new_dir_index i new_name
                    >>= (λ (added, _). some (free_file_table added, true))))))))))

-- One listing for each entry of the directory
unfoldable pub listings_loop : List FileEntry → ℕ → List ℕ → Option (List Metadata)
listings_loop table zero entries = some []
listings_loop table (suc n) entries =
    let rest = listings_loop table n (drop 64 entries) in
    file_table_index entries >>= (λ index. get_elem? table index >>= (λ e.
      copy_bytes name_length entries >>= (λ name. rest >>= (λ listings.
        let listing : Metadata = record {
          size = e.size;
          type = e.type;
          name = set name (name_length - 1) 0;
        } in
        some (listing ∷ listings)))))

-- A null pointer is the option inside. `out` is what the local `metadata` holds first.
unfoldable pub filesystem_list_dir :
    (ℕ → List ℕ) → Metadata → Fs → List ℕ → Option (Fs × Option (List Metadata))
filesystem_list_dir fresh out fs path = on_valid path fs none (
    filesystem_file_exists fresh fs path >>= (λ (tested, exists).
      if not exists
      then some (tested, none)
      else filesystem_read_file_metadata fresh tested path out >>= (λ (known, (read, metadata)).
        if not read
        then some (known, none)
        else if ltb metadata.size 64
        then some (known, none)
        else filesystem_read_file fresh known path (fresh metadata.size)
          >>= (λ (done, (got, entries)).
              let loaded = load_file_table fresh done in
              if not got
              then some (done, none)
              else listings_loop loaded.file_table (metadata.size / 64) entries
                >>= (λ listings. some (free_file_table loaded, some listings))))))
