-- ===== src/Filesystem/Directories/Listing.antt =====
-- filesystem.c: the entries that the bytes of a directory stand for.
use eitan_os.Base.{
  ℕ, zero, suc, ◌+◌, ◌*◌, ◌^◌, ◌<◌, ◌≡◌, refl, ap, ◌∙◌, List, [], ◌∷◌, ◌++◌, All, length,
  length-append, drop, some, arith,
}
use eitan_os.Text.Compare.{NonZero, c_string}
use eitan_os.Filesystem.Table.{le32}
use eitan_os.Filesystem.Table.Saving.{of_le32_lem}
use eitan_os.Filesystem.Directories.{le32_of, file_table_index}

-- A name, the bytes behind its zero, and the index of the file
pub record DirEntry : Type 0 where
  pub name : List ℕ
  pub padding : List ℕ
  pub index : ℕ

abbrev pub IsEntry : DirEntry → Type 0
IsEntry e = All NonZero e.name × (length e.name + length e.padding ≡ 59) × (e.index < 2 ^ 32)

-- A buffer that begins with the bytes of an entry
abbrev pub entry_then : DirEntry → List ℕ → List ℕ
entry_then e rest = c_string e.name (e.padding ++ (le32 e.index ++ rest))

-- A buffer that begins with the bytes of the entries, and then has `rest`
abbrev pub listing : List DirEntry → List ℕ → List ℕ
listing [] rest = rest
listing (e ∷ es) rest = entry_then e (listing es rest)

pub drop_past : (xs ys : List ℕ) (n k : ℕ) → n ≡ length xs + k → drop n (xs ++ ys) ≡ drop k ys
drop_past [] ys n k h = ap (λ n. drop n ys) {x = n} {y = k} (omega (arith, h))
drop_past (x ∷ xs) ys zero k h = absurd (omega (arith, h))
drop_past (x ∷ xs) ys (suc n) k h = drop_past xs ys n k (omega (arith, h))

pub drop_name :
    (e : DirEntry) (rest : List ℕ)
    → length e.name + length e.padding ≡ 59
    → drop 60 (entry_then e rest) ≡ le32 e.index ++ rest
drop_name e rest long =
    let behind = e.padding ++ (le32 e.index ++ rest) in
    drop_past e.name (0 ∷ behind) 60 (suc (length e.padding)) (omega (arith, long))
    ∙ drop_past e.padding (le32 e.index ++ rest) (length e.padding) 0 (omega arith)

pub drop_entry :
    (e : DirEntry) (rest : List ℕ)
    → length e.name + length e.padding ≡ 59
    → drop 64 (entry_then e rest) ≡ rest
drop_entry e rest long =
    let behind = e.padding ++ (le32 e.index ++ rest) in
    drop_past e.name (0 ∷ behind) 64 (suc (length e.padding + 4)) (omega (arith, long))
    ∙ drop_past e.padding (le32 e.index ++ rest) (length e.padding + 4) 4 (omega arith)

pub index_of_entry :
    (e : DirEntry) (rest : List ℕ) → IsEntry e → file_table_index (entry_then e rest) ≡ some e.index
index_of_entry e rest (_, long, small) =
    ap le32_of (drop_name e rest long) ∙ ap some (of_le32_lem e.index small)

pub length-entry_then :
    (e : DirEntry) (rest : List ℕ)
    → length e.name + length e.padding ≡ 59
    → length (entry_then e rest) ≡ 64 + length rest
length-entry_then e rest long =
    let behind = e.padding ++ (le32 e.index ++ rest) in
    omega (
      arith,
      long,
      length-append e.name (0 ∷ behind),
      length-append e.padding (le32 e.index ++ rest),
    )

pub length-listing :
    (es : List DirEntry) (rest : List ℕ)
    → All IsEntry es
    → length (listing es rest) ≡ 64 * length es + length rest
length-listing [] rest ok = omega arith
length-listing (e ∷ es) rest (one, ok) =
    omega (arith, length-entry_then e (listing es rest) one.1, length-listing es rest ok)

pub listing-append :
    (es fs : List DirEntry) (rest : List ℕ) → listing (es ++ fs) rest ≡ listing es (listing fs rest)
listing-append [] fs rest = refl
listing-append (e ∷ es) fs rest = ap (entry_then e) (listing-append es fs rest)
