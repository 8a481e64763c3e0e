-- ===== src/Filesystem/Directories/Loading.antt =====
-- filesystem.c: reading the bytes of a directory into a buffer.
use eitan_os.Base.{
  some, none, ltb, ℕ, ◌+◌, ◌*◌, ◌/◌, ◌%◌, ◌≤◌, ◌<◌, ◌≡◌, refl, sym, ap, ◌∙◌, inl, inr, false, leb,
  if◌then◌else◌, Bool-cases, List, [], ◌∷◌, ◌++◌, All, length, drop, arith,
}
use eitan_os.Filesystem.Disk.{Disk, read_sectors, slice}
use eitan_os.Filesystem.Disk.Transfer.{most, read-buffer}
use eitan_os.Filesystem.Disk.Writing.{Holds, accepts}
use eitan_os.Filesystem.Table.{FileEntry, Fs}
use eitan_os.Filesystem.Table.Saving.{slice_eq}
use eitan_os.Filesystem.Space.Placement.{Placed, Sized}
use eitan_os.Filesystem.Directories.{loaded_entries}
use eitan_os.Filesystem.Directories.Listing.{DirEntry, IsEntry, listing, length-listing}
use eitan_os.Filesystem.Directories.Extend.{listing_then}

-- The file on the disk is a directory with these entries.
abbrev pub IsDirectory : Disk → FileEntry → List DirEntry → Type 0
IsDirectory d e es =
    (e.size ≡ 64 * length es)
    × (e.size ≤ most)
    × Placed d.sector_count e
    × All IsEntry es
    × Holds d e.start_sector (listing es []) e.size

module _ (d : Disk) (e : FileEntry) (es : List DirEntry) (target : List ℕ)
    (sized : Sized d.sector_count) (dir : IsDirectory d e es) where
  pub read_listing :
      1 ≤ e.size → read_sectors d e.start_sector target e.size ≡ listing es (drop e.size target)
  read_listing some_bytes =
      let (measure, small, placed, entries, held) = dir in
      let inside = placed_inside placed in
      let runs = accepts d e.start_sector e.size some_bytes small inside sized.1 in
      let long : e.size ≡ length (listing es []) =
        omega (arith, measure, length-listing es [] entries) in
      let got : slice d.bytes (e.start_sector * 512) e.size ≡ listing es [] =
        ap (slice d.bytes (e.start_sector * 512)) long
        ∙ slice_eq d.bytes (e.start_sector * 512) (listing es [])
            (λ k short. held k (omega (arith, short, long))) in
      let even : leb 1 (e.size % 2) ≡ false = ground (arith, measure) in
      let read = slice d.bytes (e.start_sector * 512) e.size in
      read-buffer d e.start_sector target e.size small runs
      ∙ (ap (λ b. if b then read ++ 0 ∷ drop (e.size + 1) target else read ++ drop e.size target)
            even
          ∙ (ap (λ l. l ++ drop e.size target) got ∙ sym (listing_then es (drop e.size target))))
    where
      placed_inside :
          Placed d.sector_count e → e.start_sector + (e.size + 511) / 512 < d.sector_count
      placed_inside (inl empty) = absurd (omega (arith, empty, some_bytes))
      placed_inside (inr (_, _, inside)) = inside

  empty_listing : e.size ≡ 0 → target ≡ listing es (drop e.size target)
  empty_listing empty =
      let none_listed : es ≡ [] = no_entries es (omega (arith, dir.0, empty)) in
      ap (λ n. drop n target) (sym empty)
      ∙ ap (λ fs. listing fs (drop e.size target)) (sym none_listed)
    where
      no_entries : (fs : List DirEntry) → length fs ≡ 0 → fs ≡ []
      no_entries [] h = refl
      no_entries (f ∷ fs) h = absurd (omega (arith, h))

-- What `add_file_to_dir` and `remove_file_from_dir` have in their buffers: the entries, and behind them what
-- the memory held.
pub loaded_entries-listing :
    (fs : Fs) (e : FileEntry) (es : List DirEntry) (target : List ℕ)
    → Sized fs.disk.sector_count
    → IsDirectory fs.disk e es
    → e.size ≤ length target
    → loaded_entries fs e target ≡ some (listing es (drop e.size target))
loaded_entries-listing fs e es target sized dir long =
    let read = read_sectors fs.disk e.start_sector target e.size in
    let fits : ltb (length target) e.size ≡ false = ground (arith, long) in
    ap (λ b. if b then none else some (if leb 1 e.size then read else target)) fits
    ∙ ap some (elim (Bool-cases (leb 1 e.size)) [
      | inl full ↦
          ap (λ b. if b then read else target) full
          ∙ read_listing fs.disk e es target sized dir (ground (arith, full))
      | inr empty ↦
          ap (λ b. if b then read else target) empty
          ∙ empty_listing fs.disk e es target sized dir (ground (arith, empty))
    ])
