-- ===== src/Filesystem/Directories/Removal.antt =====
-- filesystem.c: `remove_file_from_dir` takes the entry of a file out of a directory.
use eitan_os.Base.{
  ℕ, zero, suc, ◌+◌, ◌*◌, ◌/◌, ◌≤◌, ◌≡◌, refl, sym, ap, subst, ◌∙◌, inl, inr, ◌⊎◌, Bool, true,
  false, ◌==◌, ltb, if◌then◌else◌, Bool-cases, List, [], ◌∷◌, ◌++◌, append_nil, All, length, drop,
  get_elem?, Option, none, some, arith,
}
use eitan_os.Base.Faults.{◌>>=◌}
use eitan_os.Filesystem.Table.{FileEntry, Fs, is_file}
use eitan_os.Filesystem.Space.{edit_file}
use eitan_os.Filesystem.Space.Update.{Ready, Full, Edited, edit_file-Edited}
use eitan_os.Filesystem.Directories.{
  loaded_entries, kept_entries, shrunk_size, remove_file_from_dir,
}
use eitan_os.Filesystem.Directories.Listing.{DirEntry, IsEntry, listing, length-listing}
use eitan_os.Filesystem.Directories.Shrink.{remaining, kept_entries-remaining}
use eitan_os.Filesystem.Directories.Loading.{IsDirectory, loaded_entries-listing}
use eitan_os.Filesystem.Directories.Insertion.{Allocates}

remaining-IsEntry : (i : ℕ) (es : List DirEntry) → All IsEntry es → All IsEntry (remaining i es)
remaining-IsEntry i [] ok = tt
remaining-IsEntry i (e ∷ es) (one, ok) =
    let rest = remaining-IsEntry i es ok in
    elim (Bool-cases (e.index == i)) [
      | inl gone ↦
          subst (λ b. All IsEntry (if b then remaining i es else e ∷ remaining i es)) (sym gone)
            rest
      | inr stays ↦
          subst (λ b. All IsEntry (if b then remaining i es else e ∷ remaining i es)) (sym stays)
            (one, rest)
    ]

dropped_all : (n : ℕ) (l : List ℕ) → length l ≤ n → drop n l ≡ []
dropped_all zero [] h = refl
dropped_all zero (x ∷ l) h = absurd (omega (arith, h))
dropped_all (suc n) [] h = refl
dropped_all (suc n) (x ∷ l) h = dropped_all n l (omega (arith, h))

module _ (fresh : ℕ → List ℕ) (fs : Fs) (dir_index i : ℕ) (dir : FileEntry) (es : List DirEntry)
    (allocates : Allocates fresh) (ready : Ready fs)
    (found : get_elem? fs.file_table dir_index ≡ some dir) (file : is_file dir ≡ true)
    (held : IsDirectory fs.disk dir es) (once : length (remaining i es) + 1 ≡ length es) where
  -- A file that has one entry in a directory is taken out of it, in a ready state: either
  -- `find_space_for_file` finds no place for what is left and nothing changed, or the directory now has its other entries in their order, and all other files are as
  -- before.
  pub remove_file_from_dir-Edited :
      (Full fs dir_index dir (64 * length (remaining i es))
        × (remove_file_from_dir fresh fs dir_index i ≡ some (fs, false)))
      ⊎ ((fs' : Fs) × (remove_file_from_dir fresh fs dir_index i ≡ some (fs', true))
          × Edited fresh fs dir_index dir
              (listing (remaining i es) [])
              (64 * length (remaining i es))
              fs')
  unfolding remove_file_from_dir
  remove_file_from_dir-Edited =
      let count = dir.size / 64 in
      let rest = remaining i es in
      let bytes = listing rest [] in
      let old = listing es (drop dir.size (fresh (count * 64))) in
      let loaded : loaded_entries fs dir (fresh (count * 64)) ≡ some old =
        loaded_entries-listing fs dir es (fresh (count * 64)) ready.1 held
          (omega (arith, allocates (count * 64), held.0)) in
      let size : count ≡ length es = omega (arith, held.0) in
      let shrunk : shrunk_size count ≡ 64 * length rest =
        omega (arith, size, once, held.1, held.0) in
      let entries = remaining-IsEntry i es held.3 in
      let measure : length bytes ≡ 64 * length rest =
        omega (arith, length-listing rest [] entries) in
      let kept : kept_entries i count old ≡ some bytes =
        ap (λ n. kept_entries i n old) size
        ∙ kept_entries-remaining i es (drop dir.size (fresh (count * 64))) held.3 in
      let some_entry : (count == 0) ≡ false = ground (arith, size, once) in
      let target = fresh (shrunk_size count) in
      let fits : ltb (length target) (length bytes) ≡ false =
        ground (arith, allocates (shrunk_size count), shrunk, measure) in
      let whole : bytes ++ drop (length bytes) target ≡ bytes =
        ap (λ l. bytes ++ l)
          (dropped_all (length bytes) target
            (omega (arith, allocates (shrunk_size count), shrunk, measure)))
        ∙ append_nil bytes in
      let put : ℕ → List ℕ → List ℕ → Option (Fs × Bool) = λ n room kept.
        if ltb (length room) (length kept)
        then none
        else edit_file fs dir_index (kept ++ drop (length kept) room) (shrunk_size n) in
      let room : ℕ → List ℕ = λ n. if n == 0 then [] else fresh (shrunk_size n) in
      let run : remove_file_from_dir fresh fs dir_index i
          ≡ edit_file fs dir_index bytes (64 * length rest) =
        ap
          (λ o. o >>= (λ e. loaded_entries fs e (fresh (e.size / 64 * 64)) >>= (λ old.
            kept_entries i (e.size / 64) old >>= put (e.size / 64) (room (e.size / 64)))))
          found
        ∙ ap (λ o. o >>= (λ old. kept_entries i count old >>= put count (room count))) loaded
        ∙ (ap (λ o. o >>= put count (room count)) kept
            ∙ (ap (λ b. put count (if b then [] else target) bytes) some_entry
                ∙ (ap
                      (λ b.
                        if b
                        then none
                        else edit_file fs dir_index (bytes ++ drop (length bytes) target)
                            (shrunk_size count))
                      fits
                    ∙ (ap (λ l. edit_file fs dir_index l (shrunk_size count)) whole
                        ∙ ap (edit_file fs dir_index bytes) shrunk)))) in
      elim (edit_file-Edited fresh fs dir_index dir bytes (64 * length rest) ready
        (omega (arith, held.1, held.0, once)) (omega (arith, measure)) found file) [
          | inl (full, stays) ↦ inl (full, run ∙ stays)
          | inr (fs', done, edited) ↦ inr (fs', run ∙ done, edited)
        ]
