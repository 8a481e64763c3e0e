-- ===== src/Filesystem/Operations/Mounted.antt =====
-- filesystem.c: a disk whose directories hold a tree, and what the operations that only look do on it.
use eitan_os.Base.{
  ℕ, ◌≤◌, ◌≡◌, ◌∙◌, true, false, ◌==◌, List, [], ◌∷◌, All, length, get_elem?, Option, none, some,
  arith,
}
use eitan_os.Base.Faults.{◌>>=◌}
use eitan_os.Text.Compare.{NonZero, c_string}
use eitan_os.Text.Split.{tokens_of}
use eitan_os.Filesystem.Disk.{read_sectors}
use eitan_os.Filesystem.Table.{
  FileEntry, Fs, is_file, plain_file, find_root, load_file_table, free_file_table,
}
use eitan_os.Filesystem.Space.{edit_file}
use eitan_os.Filesystem.Space.Update.{Ready}
use eitan_os.Filesystem.Paths.{slash, is_valid_path}
use eitan_os.Filesystem.Directories.{resolve_path}
use eitan_os.Filesystem.Directories.Walk.{Tree, Represents, walk}
use eitan_os.Filesystem.Directories.Resolve.{resolve_path-walk}
use eitan_os.Filesystem.Operations.{
  filesystem_read_file, filesystem_file_exists, filesystem_write_file, freed,
}

-- The place in the table that a path leads to, with its text behind the first slash
abbrev pub place_of : List FileEntry → Tree → List ℕ → Option ℕ
place_of table tree text =
    find_root table >>= (λ root. walk table tree root (tokens_of slash [] (slash ∷ text)))

-- The table that is loaded from the disk is in order, and its directories hold the tree.
abbrev pub Mounted : (ℕ → List ℕ) → Fs → Tree → Type 0
Mounted fresh fs tree =
    Ready (load_file_table fresh fs) × Represents (load_file_table fresh fs) tree

-- A path, with its text behind the first slash, that the operations take
abbrev pub Takes : List ℕ → List ℕ → Type 0
Takes text behind =
    All NonZero text
    × (length text ≤ 1000)
    × (is_valid_path (c_string (slash ∷ text) behind) ≡ some true)

module _ (fresh : ℕ → List ℕ) (fs : Fs) (tree : Tree) (text behind : List ℕ)
    (mounted : Mounted fresh fs tree) (takes : Takes text behind) where
  resolves :
      resolve_path fresh (load_file_table fresh fs) (c_string (slash ∷ text) behind)
      ≡ some (place_of (load_file_table fresh fs).file_table tree text)
  resolves =
      let (ready, held) = mounted in
      let (nonzero, short, valid) = takes in
      resolve_path-walk fresh (load_file_table fresh fs) tree text behind ready.1 held nonzero short

  -- On a mounted disk, whether a file exists is whether its path leads to an entry that is a file.
  pub filesystem_file_exists-place_of :
      filesystem_file_exists fresh fs (c_string (slash ∷ text) behind)
      ≡ (elim (place_of (load_file_table fresh fs).file_table tree text) [
        | none ↦ some (free_file_table fs, false)
        | some i ↦
            get_elem? (load_file_table fresh fs).file_table i
            >>= (λ e. some (free_file_table fs, is_file e))
      ])
  unfolding filesystem_file_exists load_file_table
  filesystem_file_exists-place_of =
      let valid = takes.2 in let resolved = resolves in ground (arith, valid, resolved)

  module _ (i : ℕ) (e : FileEntry)
      (leads : place_of (load_file_table fresh fs).file_table tree text ≡ some i)
      (found : get_elem? (load_file_table fresh fs).file_table i ≡ some e)
      (file : is_file e ≡ true) where
    -- A file that a path leads to is read from its sectors.
    pub filesystem_read_file-run :
        (target : List ℕ)
        → filesystem_read_file fresh fs (c_string (slash ∷ text) behind) target
          ≡ some (free_file_table fs, (true, read_sectors fs.disk e.start_sector target e.size))
    unfolding filesystem_read_file load_file_table
    filesystem_read_file-run target =
        let valid = takes.2 in
        let resolved = resolves in ground (arith, valid, resolved, leads, found, file)

    -- A plain file that a path leads to is edited, with the table that the disk has.
    pub filesystem_write_file-run :
        (bytes : List ℕ) (type size : ℕ)
        → (e.type == plain_file) ≡ true
        → filesystem_write_file fresh fs (c_string (slash ∷ text) behind) bytes type size
          ≡ freed (edit_file (load_file_table fresh fs) i bytes size)
    unfolding filesystem_write_file load_file_table
    filesystem_write_file-run bytes type size plain =
        let valid = takes.2 in
        let resolved = resolves in
        let exists : filesystem_file_exists fresh fs (c_string (slash ∷ text) behind)
            ≡ some (free_file_table fs, true) =
          filesystem_file_exists-place_of ∙ ground (arith, leads, found, file) in
        ground (arith, valid, exists, resolved, leads, found, plain)
