-- ===== src/Filesystem/Operations/Mounting.antt =====
-- filesystem.c: saving the table of a state makes a disk that holds it.
use eitan_os.Base.{
  ℕ, ◌+◌, ◌*◌, ◌<◌, ◌≡◌, sym, ap, subst, ◌∙◌, inl, inr, List, [], All, get_elem?, some, arith,
}
use eitan_os.Filesystem.Disk.Writing.{SameOutside}
use eitan_os.Filesystem.Table.{Fs, load_file_table, save_file_table, free_file_table}
use eitan_os.Filesystem.Table.Saving.{save_file_table-load_file_table}
use eitan_os.Filesystem.Space.Placement.{Placed}
use eitan_os.Filesystem.Space.Update.{Ready, Ready-again}
use eitan_os.Filesystem.Directories.Listing.{listing}
use eitan_os.Filesystem.Directories.Lookup.{InTable}
use eitan_os.Filesystem.Directories.Walk.{Tree, Represents}
use eitan_os.Filesystem.Operations.Mounted.{Mounted}
use eitan_os.Filesystem.Operations.Overwriting.{loaded_again}

-- The directories are behind the sectors that saving the table changes.
saved-Represents :
    (fs saved : Fs) (tree : Tree)
    → Ready fs
    → Represents fs tree
    → saved.file_table ≡ fs.file_table
    → saved.disk.sector_count ≡ fs.disk.sector_count
    → SameOutside fs.disk 1 20 saved.disk
    → Represents saved tree
saved-Represents fs saved tree ready held same count outside j e at file holds =
    let ((measure, small, placed, entries, bytes), inside) =
      held j e (ap (λ t. get_elem? t j) (sym same) ∙ at) file holds in
    (
      (
        measure,
        small,
        subst (λ n. Placed n e) (sym count) placed,
        entries,
        λ k short. bytes_kept placed k short (bytes k short),
      ),
      subst (λ t. All (InTable t) (tree j)) (sym same) inside,
    )
  where
    bytes_kept :
        Placed fs.disk.sector_count e
        → (k : ℕ) → k < e.size
        → some (fs.disk.bytes (e.start_sector * 512 + k)) ≡ get_elem? (listing (tree j) []) k
        → some (saved.disk.bytes (e.start_sector * 512 + k)) ≡ get_elem? (listing (tree j) []) k
    bytes_kept (inl empty) k short before = absurd (omega (arith, empty, short))
    bytes_kept (inr (from, _, _)) k short before =
        ap some (outside (e.start_sector * 512 + k) (inr (omega (arith, from)))) ∙ before

-- A state in order whose directories hold a tree is saved, and the disk that results is mounted with it.
pub save_file_table-Mounted :
    (fresh : ℕ → List ℕ) (fs : Fs) (tree : Tree)
    → Ready fs
    → Represents fs tree
    → (saved : Fs) × (save_file_table fs ≡ some saved)
      × Mounted fresh (free_file_table saved) tree
      × (load_file_table fresh (free_file_table saved) ≡ saved)
      × (saved.file_table ≡ fs.file_table)
save_file_table-Mounted fresh fs tree ready held =
    let (writable, sized, long, words, well) = ready in
    let (saved, run, loaded, outside, same, drive) =
      save_file_table-load_file_table fresh fs writable (omega (arith, sized.0)) sized.1 long
        words in
    let again = loaded_again fresh saved (loaded ∙ sym same) in
    let ready' = Ready-again fs saved fs.file_table ready drive same long words well in
    let held' = saved-Represents fs saved tree ready held same drive.0 outside in
    (
      saved,
      run,
      (subst Ready (sym again) ready', subst (λ fs. Represents fs tree) (sym again) held'),
      again,
      same,
    )
