-- ===== src/Filesystem/Examples/Files.antt =====
-- The tree of the disk, its paths, and a write to a file that it has.
use eitan_os.Base.{
  ℕ, zero, suc, ◌≡◌, refl, sym, ap, subst, ◌∙◌, ◌⊎◌, ◌==◌, true, false, List, [], ◌∷◌, replicate,
  get_elem?, some, arith,
}
use mathlib.Core.Option.{some-injective}
use eitan_os.Base.Faults.{◌>>=◌}
use eitan_os.Text.Compare.{c_string}
use eitan_os.Text.Split.{tokens_of}
use eitan_os.Filesystem.Table.{
  FileEntry, Fs, is_file, empty_entry, find_root, find_root_from, load_file_table, free_file_table,
}
use eitan_os.Filesystem.Space.Update.{Full}
use eitan_os.Filesystem.Paths.{slash}
use eitan_os.Filesystem.Directories.{resolve_path, delete_directory_entries_recursive}
use eitan_os.Filesystem.Directories.Walk.{Tree, Represents, walk, holds_entries}
use eitan_os.Filesystem.Directories.Loading.{IsDirectory}
use eitan_os.Filesystem.Directories.Resolve.{resolve_path-walk}
use eitan_os.Filesystem.Directories.Fewer.{Fewer-refl}
use eitan_os.Filesystem.Directories.Deletion.{
  Ranked, Emptied, delete_directory_entries_recursive-Emptied,
}
use eitan_os.Filesystem.Paths.Validity.{is_valid_path-is_path}
use eitan_os.Filesystem.Operations.{filesystem_write_file}
use eitan_os.Filesystem.Operations.Mounted.{place_of, Mounted, Takes}
use eitan_os.Filesystem.Operations.Mounting.{save_file_table-Mounted}
use eitan_os.Filesystem.Operations.Overwriting.{
  ReadsBack, filesystem_write_file-filesystem_read_file,
}
use eitan_os.Filesystem.Examples.{fresh, disk, root, file_a, table, fs, fs-Ready}
use eitan_os.Filesystem.Examples.Directory.{listed, root-IsDirectory}

abbrev tree : Tree
tree zero = listed
tree (suc i) = []

empties_free :
    (n j : ℕ) (e : FileEntry) → get_elem? (replicate n empty_entry) j ≡ some e → is_file e ≡ false
empties_free zero j e at = absurd (ground (arith, at))
empties_free (suc n) zero e at = sym (ap is_file (some-injective empty_entry e at))
empties_free (suc n) (suc j) e at = empties_free n j e at

fs-Represents : Represents fs tree
fs-Represents zero e at file holds = (
  subst (λ e. IsDirectory disk e listed) (some-injective root e at) root-IsDirectory,
  (omega arith, tt),
)
fs-Represents (suc zero) e at file holds =
    let same = some-injective file_a e at in
    let type : holds_entries e ≡ false = ap holds_entries (sym same) in
    absurd (ground (arith, type, holds))
fs-Represents (suc (suc j)) e at file holds =
    let free = empties_free 638 j e at in absurd (ground (arith, free, file))

resolve_path-walk_example :
    resolve_path fresh fs (c_string (slash ∷ 97 ∷ []) [])
    ≡ some (
        find_root fs.file_table
        >>= (λ i. walk fs.file_table tree i (tokens_of slash [] (slash ∷ 97 ∷ []))))
resolve_path-walk_example =
    resolve_path-walk fresh fs tree (97 ∷ []) [] fs-Ready.1 fs-Represents (omega arith, tt)
      (omega arith)

fs-Ranked : Ranked fs.file_table tree (λ i. 0)
fs-Ranked zero = (
  λ g at file is_dir.
      let same = some-injective file_a g at in
      let type : (g.type == 1) ≡ false = ap (λ (e : FileEntry). e.type == 1) (sym same) in
      absurd (ground (arith, type, is_dir)),
  tt,
)
fs-Ranked (suc i) = tt

delete_directory_entries_recursive-Emptied_example :
    (later : List FileEntry) × (delete_directory_entries_recursive 1 fresh disk table 0
      ≡ some later)
    × Emptied tree table 0 later
delete_directory_entries_recursive-Emptied_example =
    delete_directory_entries_recursive-Emptied fresh fs tree (λ i. 0) fs-Ready.1 fs-Represents
      fs-Ranked 1 0 table root (omega arith) (Fewer-refl table) refl refl refl

-- The disk after the table was saved, with no table loaded
abbrev mounted_fs : Fs
mounted_fs = free_file_table (save_file_table-Mounted fresh fs tree fs-Ready fs-Represents).0

fs-Mounted : Mounted fresh mounted_fs tree
fs-Mounted = (save_file_table-Mounted fresh fs tree fs-Ready fs-Represents).2

mounted_table : (load_file_table fresh mounted_fs).file_table ≡ table
mounted_table =
    let (saved, _, _, again, same) = save_file_table-Mounted fresh fs tree fs-Ready fs-Represents in
    ap (λ (fs : Fs). fs.file_table) again ∙ same

path_taken : Takes (97 ∷ []) []
path_taken = (
  (omega arith, tt),
  omega arith,
  is_valid_path-is_path (slash ∷ 97 ∷ []) [] (omega arith, (omega arith, tt)) (omega arith)
      (omega arith),
)

in_place : place_of table tree (97 ∷ []) ≡ some 1
unfolding find_root_from
in_place = refl

filesystem_write_file-filesystem_read_file_example :
    (Full (load_file_table fresh mounted_fs) 1 file_a 3
      × (filesystem_write_file fresh mounted_fs (c_string (slash ∷ 97 ∷ []) []) (7 ∷ 8 ∷ 9 ∷ []) 0 3
          ≡ some (free_file_table mounted_fs, false)))
    ⊎ ((fs' : Fs) × (filesystem_write_file fresh mounted_fs
            (c_string (slash ∷ 97 ∷ []) [])
            (7 ∷ 8 ∷ 9 ∷ [])
            0
            3
          ≡ some (fs', true))
        × Mounted fresh fs' tree
        × ReadsBack fresh fs' (c_string (slash ∷ 97 ∷ []) []) (7 ∷ 8 ∷ 9 ∷ []) 3 (replicate 3 0))
filesystem_write_file-filesystem_read_file_example =
    filesystem_write_file-filesystem_read_file fresh mounted_fs tree (97 ∷ []) [] fs-Mounted
      path_taken 1 file_a (ap (λ t. place_of t tree (97 ∷ [])) mounted_table ∙ in_place)
      (ap (λ t. get_elem? t 1) mounted_table) refl refl (7 ∷ 8 ∷ 9 ∷ []) 3 (omega arith)
      (omega arith) (replicate 3 0) 0
