-- ===== src/Filesystem/Directories/Insertion.antt =====
-- filesystem.c: `add_file_to_dir` puts a name behind the entries of a directory.
use eitan_os.Base.{
  ℕ, ◌+◌, ◌-◌, ◌*◌, ◌/◌, ◌^◌, ◌≤◌, ◌<◌, ◌≡◌, sym, ap, subst, ◌∙◌, inl, inr, ◌⊎◌, Bool, true, false,
  List, [], ◌∷◌, ◌++◌, append_assoc, All, All-append, length, length-append, length-drop, drop,
  get_elem?, Option, some, arith,
}
use eitan_os.Base.Faults.{◌>>=◌}
use eitan_os.Text.{counted, strlen}
use eitan_os.Text.Compare.{NonZero, c_string, strlen_lem, measure_short}
use eitan_os.Filesystem.Disk.Transfer.{most}
use eitan_os.Filesystem.Table.{FileEntry, Fs, is_file}
use eitan_os.Filesystem.Space.{edit_file}
use eitan_os.Filesystem.Space.Update.{Ready, Full, Edited, edit_file-Edited}
use eitan_os.Text.Build.{copy_bytes}
use eitan_os.Filesystem.Directories.{loaded_entries, copied_name, with_entry, add_file_to_dir}
use eitan_os.Filesystem.Directories.Listing.{DirEntry, IsEntry, listing, length-listing}
use eitan_os.Filesystem.Directories.Shrink.{copy_bytes_all}
use eitan_os.Filesystem.Directories.Added.{Extended, with_entry-Extended}
use eitan_os.Filesystem.Directories.Loading.{IsDirectory, loaded_entries-listing}

-- Memory of `n` bytes holds `n` bytes.
abbrev pub Allocates : (ℕ → List ℕ) → Type 0
Allocates fresh = (n : ℕ) → length (fresh n) ≡ n

-- A name of at most 59 bytes is copied with its zero.
copied :
    (name behind : List ℕ)
    → All NonZero name
    → length name ≤ 59
    → (strlen (c_string name behind) ≡ some (counted (length name)))
      × (copy_bytes (copied_name (counted (length name))) (c_string name behind)
          ≡ some (c_string name []))
copied name behind ok short =
    let whole : length (c_string name []) ≡ length name + 1 =
      omega (arith, length-append name (0 ∷ [])) in
    (
      strlen_lem name behind ok ∙ ap some (measure_short (length name) (omega (arith, short))),
      ap (copy_bytes (copied_name (counted (length name))))
            (sym (append_assoc name (0 ∷ []) behind))
          ∙ copy_bytes_all (copied_name (counted (length name))) (c_string name []) behind
              (ground (arith, whole, short)),
    )

module _ (fresh : ℕ → List ℕ) (fs : Fs) (dir_index i : ℕ) (dir : FileEntry) (es : List DirEntry)
    (name behind : List ℕ) (allocates : Allocates fresh) (ready : Ready fs)
    (found : get_elem? fs.file_table dir_index ≡ some dir) (file : is_file dir ≡ true)
    (held : IsDirectory fs.disk dir es) (room : 64 * length es + 64 ≤ most) (ok : All NonZero name)
    (short : length name ≤ 59) (word : i < 2 ^ 32) where
  -- What the buffer holds behind the entries is one more entry.
  slot_listing : List ℕ
  slot_listing = listing es (drop dir.size (fresh ((dir.size / 64 + 1) * 64)))

  new_buffer :
      (let count = dir.size / 64 + 1 in
        (loaded_entries fs dir (fresh (count * 64)) ≡ some slot_listing)
        × Extended es name i (with_entry slot_listing ((count - 1) * 64) i (c_string name [])))
  unfolding slot_listing
  new_buffer =
      let count = dir.size / 64 + 1 in
      let slot = drop dir.size (fresh (count * 64)) in
      let size : count ≡ length es + 1 = omega (arith, held.0) in
      let slot_size : length slot ≡ 64 =
        omega (
          arith,
          length-drop dir.size (fresh (count * 64)),
          allocates (count * 64),
          size,
          held.0,
        ) in
      let at : 64 * length es ≡ (count - 1) * 64 = omega (arith, size) in
      (
        loaded_entries-listing fs dir es (fresh (count * 64)) ready.1 held
            (omega (arith, allocates (count * 64), size, held.0)),
        subst (λ n. Extended es name i (with_entry (listing es slot) n i (c_string name []))) at
            (with_entry-Extended es slot i held.3 slot_size name short),
      )

  -- A name of at most 59 bytes is added to a directory in a ready state: either `find_space_for_file` finds no
  -- place for the longer directory and nothing changed, or the directory now has its entries and behind them the new one, with the name and the index,
  -- and all other files are as before.
  pub add_file_to_dir-Edited :
      (Full fs dir_index dir (64 * length es + 64)
        × (add_file_to_dir fresh fs dir_index i (c_string name behind) ≡ some (fs, false)))
      ⊎ ((fs' : Fs) × (padding : List ℕ) × (length name + length padding ≡ 59)
          × (add_file_to_dir fresh fs dir_index i (c_string name behind) ≡ some (fs', true))
          × Edited fresh fs dir_index dir
              (listing (es ++ record { name = name; padding = padding; index = i } ∷ []) [])
              (64 * length es + 64)
              fs')
  unfolding add_file_to_dir
  add_file_to_dir-Edited =
      let count = dir.size / 64 + 1 in
      let (loaded, (padding, sum, buffer)) = new_buffer in
      let new : DirEntry = record { name = name; padding = padding; index = i } in
      let bytes = listing (es ++ new ∷ []) [] in
      let size : count * 64 ≡ 64 * length es + 64 = omega (arith, held.0) in
      let entries = All-append IsEntry es (new ∷ []) held.3 ((ok, sum, word), tt) in
      let enough : 64 * length es + 64 ≤ length bytes =
        omega (arith, length-listing (es ++ new ∷ []) [] entries, length-append es (new ∷ [])) in
      let (measured, copy) = copied name behind ok short in
      let string = c_string name behind in
      let put : FileEntry → List ℕ → List ℕ → Option (Fs × Bool) = λ e entries copy.
        edit_file fs dir_index (with_entry entries ((e.size / 64 + 1 - 1) * 64) i copy)
          ((e.size / 64 + 1) * 64) in
      let name_then : FileEntry → List ℕ → Option (Fs × Bool) = λ e entries.
        strlen string >>= (λ len. copy_bytes (copied_name len) string >>= put e entries) in
      let run : add_file_to_dir fresh fs dir_index i string
          ≡ edit_file fs dir_index bytes (64 * length es + 64) =
        ap (λ o. o >>= (λ e. loaded_entries fs e (fresh ((e.size / 64 + 1) * 64)) >>= name_then e))
          found
        ∙ ap (λ o. o >>= name_then dir) loaded
        ∙ (ap (λ o. o >>= (λ len. copy_bytes (copied_name len) string >>= put dir slot_listing))
              measured
            ∙ (ap (λ o. o >>= put dir slot_listing) copy
                ∙ (ap (λ b. edit_file fs dir_index b (count * 64)) buffer
                    ∙ ap (edit_file fs dir_index bytes) size))) in
      elim (edit_file-Edited fresh fs dir_index dir bytes (64 * length es + 64) ready room enough
        found file) [
          | inl (full, stays) ↦ inl (full, run ∙ stays)
          | inr (fs', done, edited) ↦ inr (fs', padding, sum, run ∙ done, edited)
        ]
