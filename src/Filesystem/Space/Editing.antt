-- ===== src/Filesystem/Space/Editing.antt =====
-- filesystem.c: a table whose files are placed and apart stays so when an entry is hidden or gets clear sectors.
use eitan_os.Base.{
  ℕ, zero, suc, ◌+◌, ◌≤◌, ◌<◌, ◌≡◌, ◌≢◌, inl, inr, refl, ap, true, List, [], ◌∷◌, All, All-set,
  All-map, set, arith,
}
use eitan_os.Filesystem.Disk.Transfer.{most}
use eitan_os.Filesystem.Table.{FileEntry, is_file}
use eitan_os.Filesystem.Space.{sectors_needed, end_sector, first_end, hidden_entry, edited_entry}
use eitan_os.Filesystem.Space.Order.{Pairwise}
use eitan_os.Filesystem.Space.Placement.{
  Placed, Apart, Apart-sym, Clear, Sized, OfFiles, FilesApart, WellPlaced,
}

FilesApart-sym : (e f : FileEntry) → FilesApart e f → FilesApart f e
FilesApart-sym e f h one other = Apart-sym e f (h other one)

Pairwise-set :
    (table : List FileEntry) (i : ℕ) (v : FileEntry)
    → Pairwise FilesApart table
    → All (FilesApart v) table
    → Pairwise FilesApart (set table i v)
Pairwise-set [] i v h new = tt
Pairwise-set (e ∷ table) zero v (one, h) (first, new) = (new, h)
Pairwise-set (e ∷ table) (suc i) v (one, h) (first, new) =
    (All-set (FilesApart e) table i one (FilesApart-sym v e first), Pairwise-set table i v h new)

pub set_twice :
    (table : List FileEntry) (i : ℕ) (v w : FileEntry) → set (set table i v) i w ≡ set table i w
set_twice [] i v w = refl
set_twice (e ∷ table) zero v w = refl
set_twice (e ∷ table) (suc i) v w = ap (λ l. e ∷ l) (set_twice table i v w)

trivial : (P : FileEntry → Type 0) (table : List FileEntry) → ((e : FileEntry) → P e) → All P table
trivial P [] all = tt
trivial P (e ∷ table) all = (all e, trivial P table all)

-- An entry that was made no file is apart from all others.
pub hidden-WellPlaced :
    (sector_count : ℕ) (table : List FileEntry) (i : ℕ) (e : FileEntry)
    → WellPlaced sector_count table
    → WellPlaced sector_count (set table i (hidden_entry e))
hidden-WellPlaced sector_count table i e (placed, apart) =
    let never : is_file (hidden_entry e) ≢ true = λ file. absurd (ground (arith, file)) in
    (
      All-set (OfFiles (Placed sector_count)) table i placed (λ file. absurd (never file)),
      Pairwise-set table i (hidden_entry e) apart
          (trivial (FilesApart (hidden_entry e)) table (λ f file. absurd (never file))),
    )

-- A new entry in clear sectors is placed, and apart from the files.
pub edited-WellPlaced :
    (sector_count : ℕ) (table : List FileEntry) (i : ℕ) (e : FileEntry) (start size : ℕ)
    → Sized sector_count
    → size ≤ most
    → WellPlaced sector_count table
    → first_end ≤ start
    → start + sectors_needed size < sector_count
    → All (OfFiles (Clear start (sectors_needed size))) table
    → WellPlaced sector_count (set table i (edited_entry e start size))
edited-WellPlaced sector_count table i e start size sized small (placed, apart) low high clear =
    let new = edited_entry e start size in
    let (enough, fits) = sized in
    let last : end_sector new ≡ start + sectors_needed size = omega (arith, small, high, fits) in
    let here : Placed sector_count new =
      inr (low, omega (arith, small), omega (arith, small, high)) in
    let from : (f : FileEntry) → OfFiles (Clear start (sectors_needed size)) f → FilesApart new f =
      λ f clear _ file. away f last (clear file) in
    (
      All-set (OfFiles (Placed sector_count)) table i placed (λ _. here),
      Pairwise-set table i new apart
          (All-map (OfFiles (Clear start (sectors_needed size))) (FilesApart new) table from clear),
    )
  where
    away :
        (f : FileEntry)
        → end_sector (edited_entry e start size) ≡ start + sectors_needed size
        → Clear start (sectors_needed size) f
        → Apart (edited_entry e start size) f
    away f last (inl h) = inr (inl h)
    away f last (inr (inl h)) = inr (inr (inl (omega (arith, last, h))))
    away f last (inr (inr h)) = inr (inr (inr h))
