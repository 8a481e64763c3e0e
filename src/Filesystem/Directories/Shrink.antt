-- ===== src/Filesystem/Directories/Shrink.antt =====
-- filesystem.c: the entries that `remove_file_from_dir` copies.
use eitan_os.Base.{
  ℕ, zero, suc, ◌≡◌, refl, sym, ap, ◌∙◌, ◌==◌, if◌then◌else◌, List, [], ◌∷◌, ◌++◌, append_assoc,
  All, length, drop, some, arith,
}
use eitan_os.Base.Faults.{◌>>=◌}
use eitan_os.Filesystem.Table.{le32}
use eitan_os.Text.Build.{copy_bytes}
use eitan_os.Filesystem.Directories.{kept_entries}
use eitan_os.Filesystem.Directories.Listing.{
  DirEntry, IsEntry, entry_then, listing, drop_entry, index_of_entry, length-entry_then,
}

-- The entries of a directory that are not of the file `i`
abbrev pub remaining : ℕ → List DirEntry → List DirEntry
remaining i [] = []
remaining i (e ∷ es) = let rest = remaining i es in if e.index == i then rest else e ∷ rest

pub copy_bytes_all : (n : ℕ) (xs ys : List ℕ) → n ≡ length xs → copy_bytes n (xs ++ ys) ≡ some xs
unfolding copy_bytes
copy_bytes_all zero [] ys h = refl
copy_bytes_all zero (x ∷ xs) ys h = absurd (omega (arith, h))
copy_bytes_all (suc n) [] ys h = absurd (omega (arith, h))
copy_bytes_all (suc n) (x ∷ xs) ys h =
    ap (λ o. o >>= (λ bytes. some (x ∷ bytes))) (copy_bytes_all n xs ys (omega (arith, h)))

entry-append : (e : DirEntry) (rest : List ℕ) → entry_then e [] ++ rest ≡ entry_then e rest
entry-append e rest =
    append_assoc e.name (0 ∷ (e.padding ++ le32 e.index)) rest
    ∙ ap (λ l. e.name ++ 0 ∷ l) (append_assoc e.padding (le32 e.index) rest)

copy_entry :
    (e : DirEntry) (rest : List ℕ)
    → IsEntry e
    → copy_bytes 64 (entry_then e rest) ≡ some (entry_then e [])
copy_entry e rest (_, long, _) =
    ap (copy_bytes 64) (sym (entry-append e rest))
    ∙ copy_bytes_all 64 (entry_then e []) rest (omega (arith, length-entry_then e [] long))

-- Of the bytes of a directory, the loop copies those of the entries that are not of the file, in their order.
pub kept_entries-remaining :
    (i : ℕ) (es : List DirEntry) (rest : List ℕ)
    → All IsEntry es
    → kept_entries i (length es) (listing es rest) ≡ some (listing (remaining i es) [])
unfolding kept_entries
kept_entries-remaining i [] rest ok = refl
kept_entries-remaining i (e ∷ es) rest (one, ok) =
    let buffer = listing es rest in
    let others : kept_entries i (length es) (drop 64 (entry_then e buffer))
        ≡ some (listing (remaining i es) []) =
      ap (kept_entries i (length es)) (drop_entry e buffer one.1)
      ∙ kept_entries-remaining i es rest ok in
    let joined = entry-append e (listing (remaining i es) []) in
    ground (arith, index_of_entry e buffer one, others, copy_entry e buffer one, joined)
