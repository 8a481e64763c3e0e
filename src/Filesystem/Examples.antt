-- ===== src/Filesystem/Examples.antt =====
-- A disk of 1000 sectors with a root that lists the file `/a`, and the memory that allocations give.
mod Table
mod Directory
mod Files
use eitan_os.Base.{
  ℕ, zero, suc, ◌+◌, ◌-◌, ◌*◌, ◌^◌, ◌≤◌, ◌<◌, ◌≡◌, refl, sym, ap, ◌∙◌, inl, inr, true, false, List,
  [], ◌∷◌, ◌++◌, All, length, replicate, length-replicate, get_elem?, some, arith,
}
use eitan_os.Filesystem.Disk.{Disk, byte_at}
use eitan_os.Filesystem.Disk.Transfer.{byte_at-get_elem?}
use eitan_os.Filesystem.Disk.Writing.{Holds}
use eitan_os.Filesystem.Table.{FileEntry, Fs, magic, is_file, empty_entry}
use eitan_os.Filesystem.Table.Saving.{Words}
use eitan_os.Filesystem.Space.Order.{Pairwise}
use eitan_os.Filesystem.Space.Placement.{Placed, FilesApart, OfFiles, WellPlaced}
use eitan_os.Filesystem.Space.Update.{Ready}
use eitan_os.Filesystem.Directories.Listing.{DirEntry, listing}
use eitan_os.Filesystem.Directories.Insertion.{Allocates}

abbrev pub fresh : ℕ → List ℕ
fresh n = replicate n 165

pub fresh-Allocates : Allocates fresh
fresh-Allocates n = length-replicate n 165

abbrev pub root : FileEntry
root = record { magic_number = magic; type = 2; start_sector = 641; size = 64 }

abbrev pub file_a : FileEntry
file_a = record { magic_number = magic; type = 0; start_sector = 642; size = 3 }

abbrev pub entry_a : DirEntry
entry_a = record { name = 97 ∷ []; padding = replicate 58 0; index = 1 }

abbrev pub table : List FileEntry
table = root ∷ file_a ∷ replicate 638 empty_entry

abbrev pub disk : Disk
disk = record {
  sector_count = 1000;
  writable_drive = true;
  bytes = λ at. byte_at (listing (entry_a ∷ []) []) (at - 328192);
}

abbrev pub fs : Fs
fs = record { disk = disk; file_table = table }

all_replicate : (P : FileEntry → Type 0) (n : ℕ) (e : FileEntry) → P e → All P (replicate n e)
all_replicate P zero e h = tt
all_replicate P (suc n) e h = (h, all_replicate P n e h)

no_file : is_file empty_entry ≡ false
no_file = refl

apart_replicate : (n : ℕ) → Pairwise FilesApart (replicate n empty_entry)
apart_replicate zero = tt
apart_replicate (suc n) = (
  all_replicate (FilesApart empty_entry) n empty_entry
      (λ file other. absurd (ground (arith, file, no_file))),
  apart_replicate n,
)

pub table-Words : All Words table
table-Words = (
  (omega arith, omega arith, omega arith, omega arith),
  (
    (omega arith, omega arith, omega arith, omega arith),
    all_replicate Words 638 empty_entry (omega arith, omega arith, omega arith, omega arith),
  ),
)

pub table-WellPlaced : WellPlaced 1000 table
table-WellPlaced = (
  (
    λ file. inr (omega arith, omega arith, omega arith),
    (
      λ file. inr (omega arith, omega arith, omega arith),
      all_replicate (OfFiles (Placed 1000)) 638 empty_entry (λ file. inl refl),
    ),
  ),
  (
    (
      λ file other. inr (inr (inl (omega arith))),
      all_replicate (FilesApart root) 638 empty_entry (λ file other. inr (inl refl)),
    ),
    (
      all_replicate (FilesApart file_a) 638 empty_entry (λ file other. inr (inl refl)),
      apart_replicate 638,
    ),
  ),
)

pub fs-Ready : Ready fs
fs-Ready = (
  refl,
  (omega arith, omega arith),
  ap (λ n. n + 2) (length-replicate 638 empty_entry),
  table-Words,
  table-WellPlaced,
)

pub root-Holds : Holds disk 641 (listing (entry_a ∷ []) []) 64
root-Holds k short =
    let bytes = listing (entry_a ∷ []) [] in
    ap (λ n. some (byte_at bytes n)) {x = 328192 + k - 328192} {y = k} (omega arith)
    ∙ sym (byte_at-get_elem? bytes k short)
