-- ===== src/Filesystem/Space/Placement.antt =====
-- filesystem.c: what it is for the files of a table to be placed on the disk, apart from each other.
use eitan_os.Base.{
  ℕ, ◌+◌, ◌/◌, ◌^◌, ◌≤◌, ◌<◌, ◌≡◌, ◌≢◌, ◌⊎◌, inl, inr, true, ◌==◌, Bool-cases, List, All, arith,
}
use eitan_os.Filesystem.Table.{FileEntry, is_file}
use eitan_os.Filesystem.Space.{end_sector, first_end}
use eitan_os.Filesystem.Space.Order.{Pairwise, Rising}

-- The file is empty, or its sectors are between the table and the last one.
abbrev pub Placed : ℕ → FileEntry → Type 0
Placed sector_count e =
    (e.size ≡ 0)
    ⊎ ((first_end ≤ e.start_sector)
        × (e.size + 511 < 2 ^ 32)
        × (e.start_sector + (e.size + 511) / 512 < sector_count))

-- One of the two is empty, or they have no sector in common.
abbrev pub Apart : FileEntry → FileEntry → Type 0
Apart e f =
    (e.size ≡ 0)
    ⊎ ((f.size ≡ 0) ⊎ ((end_sector e ≤ f.start_sector) ⊎ (end_sector f ≤ e.start_sector)))

-- The file has none of the `n` sectors from `s` on.
abbrev pub Clear : ℕ → ℕ → FileEntry → Type 0
Clear s n e = (e.size ≡ 0) ⊎ ((s + n ≤ e.start_sector) ⊎ (end_sector e ≤ s))

-- The sectors of a disk: at least one behind the table, and a `uint16_t` of them.
abbrev pub Sized : ℕ → Type 0
Sized sector_count = (first_end + 1 ≤ sector_count) × (sector_count < 2 ^ 16)

-- A predicate on the entries that are files
abbrev pub OfFiles : (FileEntry → Type 0) → FileEntry → Type 0
OfFiles P e = is_file e ≡ true → P e

pub Apart-sym : (e f : FileEntry) → Apart e f → Apart f e
Apart-sym e f (inl h) = inr (inl h)
Apart-sym e f (inr (inl h)) = inl h
Apart-sym e f (inr (inr (inl h))) = inr (inr (inr h))
Apart-sym e f (inr (inr (inr h))) = inr (inr (inl h))

-- A file that is placed ends behind its first sector, and the sum does not wrap around.
pub Placed-end_sector :
    (sector_count : ℕ) (e : FileEntry)
    → Sized sector_count
    → e.size ≢ 0
    → Placed sector_count e
    → (e.start_sector < end_sector e) × (end_sector e < sector_count) × (first_end ≤ e.start_sector)
Placed-end_sector sector_count e sized nonempty (inl h) = absurd (nonempty h)
Placed-end_sector sector_count e (low, high) nonempty (inr (from, small, before)) = (
  omega (arith, from, small, before, nonempty, high),
  omega (arith, from, small, before, high),
  from,
)

-- The file is empty or begins at `s` or behind.
abbrev pub From : ℕ → FileEntry → Type 0
From s e = (e.size ≡ 0) ⊎ (s ≤ e.start_sector)

pub Rising-From :
    (sector_count : ℕ) (e f : FileEntry)
    → Sized sector_count
    → e.size ≢ 0
    → Placed sector_count f
    → Rising Apart e f
    → From (end_sector e) f
Rising-From sector_count e f sized nonempty placed (after, inl h) = absurd (nonempty h)
Rising-From sector_count e f sized nonempty placed (after, inr (inl h)) = inl h
Rising-From sector_count e f sized nonempty placed (after, inr (inr (inl h))) = inr h
Rising-From sector_count e f sized nonempty placed (after, inr (inr (inr h))) =
    elim (Bool-cases (f.size == 0)) [
      | inl empty ↦ inl (ground (arith, empty))
      | inr full ↦
          let (longer, _, _) =
            Placed-end_sector sector_count f sized (ground (arith, full)) placed in
          absurd (omega (arith, after, longer, h))
    ]

-- Two entries that are files are apart.
abbrev pub FilesApart : FileEntry → FileEntry → Type 0
FilesApart e f = is_file e ≡ true → is_file f ≡ true → Apart e f

-- Each file is placed, and any two are apart.
abbrev pub WellPlaced : ℕ → List FileEntry → Type 0
WellPlaced sector_count table =
    All (OfFiles (Placed sector_count)) table × Pairwise FilesApart table
