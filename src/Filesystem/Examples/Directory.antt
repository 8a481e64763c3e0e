-- ===== src/Filesystem/Examples/Directory.antt =====
-- Paths and the root's entries at concrete inputs.
use eitan_os.Base.{
  ℕ, ◌+◌, ◌*◌, ◌≡◌, ◌≢◌, refl, ◌⊎◌, inr, true, false, List, [], ◌∷◌, ◌++◌, All, length, replicate,
  length-replicate, some, ap, arith,
}
use eitan_os.Text.Compare.{c_string}
use eitan_os.Text.Split.{ended}
use eitan_os.Filesystem.Table.{Fs}
use eitan_os.Filesystem.Space.Update.{Full, Edited}
use eitan_os.Filesystem.Paths.{slash, is_valid_path, split_path}
use eitan_os.Filesystem.Paths.Validity.{is_path, is_valid_path-is_path}
use eitan_os.Filesystem.Paths.Parts.{split_path_lem}
use eitan_os.Filesystem.Directories.{
  with_entry, add_file_to_dir, remove_file_from_dir, resolve_loop,
}
use eitan_os.Filesystem.Directories.Listing.{DirEntry, IsEntry, listing}
use eitan_os.Filesystem.Directories.Loading.{IsDirectory}
use eitan_os.Filesystem.Directories.Shrink.{remaining}
use eitan_os.Filesystem.Directories.Added.{Extended, with_entry_cut}
use eitan_os.Filesystem.Directories.Insertion.{add_file_to_dir-Edited}
use eitan_os.Filesystem.Directories.Found.{add_file_to_dir-resolve_loop}
use eitan_os.Filesystem.Directories.Removal.{remove_file_from_dir-Edited}
use eitan_os.Filesystem.Examples.{
  fresh, fresh-Allocates, disk, root, file_a, entry_a, fs, fs-Ready, root-Holds,
}

abbrev pub listed : List DirEntry
listed = entry_a ∷ []

listed-IsEntry : All IsEntry listed
listed-IsEntry = (((omega arith, tt), refl, omega arith), tt)

pub root-IsDirectory : IsDirectory disk root listed
root-IsDirectory =
    (refl, omega arith, inr (omega arith, omega arith, omega arith), listed-IsEntry, root-Holds)

abbrev name_b : List ℕ
name_b = 98 ∷ []

is_valid_path-is_path_example :
    is_valid_path (c_string (47 ∷ 97 ∷ 47 ∷ []) []) ≡ some (is_path (47 ∷ 97 ∷ 47 ∷ []))
is_valid_path-is_path_example =
    is_valid_path-is_path (47 ∷ 97 ∷ 47 ∷ []) [] (omega arith, (omega arith, (omega arith, tt)))
      (omega arith) (omega arith)

split_path_lem_example :
    split_path (c_string (47 ∷ 97 ∷ slash ∷ 98 ∷ []) [])
    ≡ some (c_string (47 ∷ 97 ∷ slash ∷ []) [], c_string name_b [])
split_path_lem_example =
    split_path_lem (47 ∷ 97 ∷ []) name_b [] (omega arith, (omega arith, tt)) (omega arith, tt)
      (omega arith, tt) (omega arith)

front-length : length {A = ℕ} (replicate 59 98) ≡ 59
front-length = length-replicate {A = ℕ} 59 98

with_entry_cut_example :
    Extended listed
      (replicate 59 98)
      5
      (with_entry (listing listed (replicate 64 165)) (64 * 1) 5 (replicate 59 98 ++ 98 ∷ []))
with_entry_cut_example =
    with_entry_cut listed (replicate 64 165) 5 listed-IsEntry (length-replicate {A = ℕ} 64 165)
      (replicate 59 98) 98 front-length

add_file_to_dir-Edited_example :
    (Full fs 0 root (64 * 1 + 64)
      × (add_file_to_dir fresh fs 0 1 (c_string name_b []) ≡ some (fs, false)))
    ⊎ ((fs' : Fs) × (padding : List ℕ) × (length name_b + length padding ≡ 59)
        × (add_file_to_dir fresh fs 0 1 (c_string name_b []) ≡ some (fs', true))
        × Edited fresh fs 0 root
            (listing (listed ++ record { name = name_b; padding = padding; index = 1 } ∷ []) [])
            (64 * 1 + 64)
            fs')
add_file_to_dir-Edited_example =
    add_file_to_dir-Edited fresh fs 0 1 root listed name_b [] fresh-Allocates fs-Ready refl refl
      root-IsDirectory (omega arith) (omega arith, tt) (omega arith) (omega arith)

head_or : ℕ → List ℕ → ℕ
head_or x [] = x
head_or x (y ∷ ys) = y

other_name : entry_a.name ≢ name_b
unfolding head_or
other_name same = absurd (omega (arith, ap (head_or 0) same))

add_file_to_dir-resolve_loop_example :
    (Full fs 0 root (64 * 1 + 64)
      × (add_file_to_dir fresh fs 0 1 (c_string name_b []) ≡ some (fs, false)))
    ⊎ ((fs' : Fs) × (add_file_to_dir fresh fs 0 1 (c_string name_b []) ≡ some (fs', true))
        × (resolve_loop fresh fs' 0 (ended name_b ∷ []) ≡ some (some 1)))
add_file_to_dir-resolve_loop_example =
    add_file_to_dir-resolve_loop fresh fs 0 1 root file_a listed name_b [] fresh-Allocates fs-Ready
      refl refl root-IsDirectory (omega arith, tt) (omega arith) (omega arith, tt) (omega arith)
      (omega arith) refl refl (other_name, tt)

remove_file_from_dir-Edited_example :
    (Full fs 0 root (64 * length (remaining 1 listed))
      × (remove_file_from_dir fresh fs 0 1 ≡ some (fs, false)))
    ⊎ ((fs' : Fs) × (remove_file_from_dir fresh fs 0 1 ≡ some (fs', true))
        × Edited fresh fs 0 root
            (listing (remaining 1 listed) [])
            (64 * length (remaining 1 listed))
            fs')
remove_file_from_dir-Edited_example =
    remove_file_from_dir-Edited fresh fs 0 1 root listed fresh-Allocates fs-Ready refl refl
      root-IsDirectory refl
