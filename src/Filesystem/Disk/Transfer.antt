-- ===== src/Filesystem/Disk/Transfer.antt =====
-- filesystem.c: what `read_sectors` and `write_sectors` transfer, up to the 255 sectors that their count can say.
use eitan_os.Base.{
  ℕ, zero, suc, ◌+◌, ◌-◌, ◌*◌, ◌%◌, ◌≤◌, ◌<◌, ◌≡◌, inl, inr, refl, ap, ◌∙◌, true, false, ltb, leb,
  if◌then◌else◌, Bool-cases, List, [], ◌∷◌, ◌++◌, length, drop, get_elem?, Option, some, arith,
}
use eitan_os.Filesystem.Disk.{Disk, transfer_size, refuses, slice, read_sectors, byte_at}

-- The most bytes that one transfer takes
abbrev pub most : ℕ
most = 130560

slice-get_elem? :
    (bytes : ℕ → ℕ) (from n k : ℕ)
    → k < n
    → get_elem? (slice bytes from n) k ≡ some (bytes (from + k))
unfolding slice
slice-get_elem? bytes from zero k small = absurd (omega (arith, small))
slice-get_elem? bytes from (suc n) zero small = ap (λ at. some (bytes at)) {x = from} (omega arith)
slice-get_elem? bytes from (suc n) (suc k) small =
    slice-get_elem? bytes (from + 1) n k (omega (arith, small))
    ∙ ap (λ at. some (bytes at)) {x = from + 1 + k} (omega arith)

pub length-slice : (bytes : ℕ → ℕ) (from n : ℕ) → length (slice bytes from n) ≡ n
unfolding slice
length-slice bytes from zero = refl
length-slice bytes from (suc n) = ap suc (length-slice bytes (from + 1) n)

get_elem?-left : (xs ys : List ℕ) (k : ℕ) → k < length xs → get_elem? (xs ++ ys) k ≡ get_elem? xs k
get_elem?-left [] ys k small = absurd (omega (arith, small))
get_elem?-left (x ∷ xs) ys zero small = refl
get_elem?-left (x ∷ xs) ys (suc k) small = get_elem?-left xs ys k (omega (arith, small))

get_elem?-right : (xs ys : List ℕ) (k : ℕ) → get_elem? (xs ++ ys) (length xs + k) ≡ get_elem? ys k
get_elem?-right [] ys k = ap (get_elem? ys) {x = 0 + k} {y = k} (omega arith)
get_elem?-right (x ∷ xs) ys k =
    ap (get_elem? (x ∷ xs ++ ys)) {x = suc (length xs) + k} {y = suc (length xs + k)} (omega arith)
    ∙ get_elem?-right xs ys k

get_elem?-drop : (n : ℕ) (xs : List ℕ) (k : ℕ) → get_elem? (drop n xs) k ≡ get_elem? xs (n + k)
get_elem?-drop zero xs k = ap (get_elem? xs) {x = k} (omega arith)
get_elem?-drop (suc n) [] k = refl
get_elem?-drop (suc n) (x ∷ xs) k =
    get_elem?-drop n xs k ∙ ap (get_elem? (x ∷ xs)) {x = suc (n + k)} (omega arith)

pub byte_at-get_elem? :
    (src : List ℕ) (k : ℕ) → k < length src → get_elem? src k ≡ some (byte_at src k)
byte_at-get_elem? [] k small = absurd (omega (arith, small))
byte_at-get_elem? (b ∷ src) zero small = refl
byte_at-get_elem? (b ∷ src) (suc k) small = byte_at-get_elem? src k (omega (arith, small))

pub transfer_size_all : (size : ℕ) → size ≤ most → transfer_size size ≡ size
transfer_size_all size small = ground (arith, small)

-- What one place of the buffer holds behind a read of `size` bytes that is not refused
abbrev pub read_at : Disk → ℕ → List ℕ → ℕ → ℕ → Option ℕ
read_at d lba target size k =
    if ltb k size
    then some (d.bytes (lba * 512 + k))
    else if ltb k (size + size % 2)
    then some 0
    else get_elem? target k

abbrev pub buffer : Disk → ℕ → List ℕ → ℕ → List ℕ
buffer d lba target n =
    let got = slice d.bytes (lba * 512) n in
    if leb 1 (n % 2) then got ++ 0 ∷ drop (n + 1) target else got ++ drop n target

pub read-buffer :
    (d : Disk) (lba : ℕ) (target : List ℕ) (size : ℕ)
    → size ≤ most
    → refuses d lba size ≡ false
    → read_sectors d lba target size ≡ buffer d lba target size
unfolding read_sectors
read-buffer d lba target size small runs =
    ap (λ b. if b then target else buffer d lba target (transfer_size size)) runs
    ∙ ap (buffer d lba target) (transfer_size_all size small)

-- A list of `n` bytes and what is behind, at place `k`
split_at :
    (got rest : List ℕ) (n k : ℕ)
    → length got ≡ n
    → n ≤ k
    → get_elem? (got ++ rest) k ≡ get_elem? rest (k - n)
split_at got rest n k long behind =
    ap (get_elem? (got ++ rest)) {x = k} {y = length got + (k - n)} (omega (arith, long, behind))
    ∙ get_elem?-right got rest (k - n)

module _ (d : Disk) (lba : ℕ) (target : List ℕ) where
  odd_at :
      (size k : ℕ)
      → size ≤ k
      → ltb k size ≡ false
      → leb 1 (size % 2) ≡ true
      → get_elem? (0 ∷ drop (size + 1) target) (k - size) ≡ read_at d lba target size k
  odd_at size k behind outside odd = elim (Bool-cases (ltb k (size + size % 2))) [
    | inl last ↦
        let first : k - size ≡ 0 = ground (arith, last, behind) in
        ap (get_elem? (0 ∷ drop (size + 1) target)) first ∙ ground (arith, last, outside)
    | inr after ↦
        let on : k - size ≡ suc (k - size - 1) = ground (arith, after, behind, odd) in
        ap (get_elem? (0 ∷ drop (size + 1) target)) on
        ∙ (get_elem?-drop (size + 1) target (k - size - 1)
            ∙ (ap (get_elem? target) {x = size + 1 + (k - size - 1)} {y = k}
                  (ground (arith, after, behind, odd))
                ∙ ground (arith, after, outside)))
  ]

  even_at :
      (size k : ℕ)
      → size ≤ k
      → ltb k size ≡ false
      → leb 1 (size % 2) ≡ false
      → get_elem? target (size + (k - size)) ≡ read_at d lba target size k
  even_at size k behind outside even =
      let after : ltb k (size + size % 2) ≡ false = ground (arith, behind, even) in
      ap (get_elem? target) {x = size + (k - size)} {y = k} (omega (arith, behind))
      ∙ ground (arith, after, outside)

pub read_sectors-read_at :
    (d : Disk) (lba : ℕ) (target : List ℕ) (size k : ℕ)
    → size ≤ most
    → refuses d lba size ≡ false
    → get_elem? (read_sectors d lba target size) k ≡ read_at d lba target size k
read_sectors-read_at d lba target size k small runs =
    let got = slice d.bytes (lba * 512) size in
    let long = length-slice d.bytes (lba * 512) size in
    ap (λ l. get_elem? l k) (read-buffer d lba target size small runs)
    ∙ elim (Bool-cases (ltb k size)) [
      | inl inside ↦
          let at : (rest : List ℕ) → get_elem? (got ++ rest) k ≡ some (d.bytes (lba * 512 + k)) =
            λ rest.
              get_elem?-left got rest k (ground (arith, inside, long))
              ∙ slice-get_elem? d.bytes (lba * 512) size k (ground (arith, inside)) in
          ground (arith, inside, at (0 ∷ drop (size + 1) target), at (drop size target))
      | inr outside ↦
          let behind : size ≤ k = ground (arith, outside) in
          elim (Bool-cases (leb 1 (size % 2))) [
            | inl odd ↦
                ap
                  (λ b.
                    get_elem?
                      (if b then got ++ 0 ∷ drop (size + 1) target else got ++ drop size target) k)
                  odd
                ∙ (split_at got (0 ∷ drop (size + 1) target) size k long behind
                    ∙ odd_at d lba target size k behind outside odd)
            | inr even ↦
                ap
                  (λ b.
                    get_elem?
                      (if b then got ++ 0 ∷ drop (size + 1) target else got ++ drop size target) k)
                  even
                ∙ (split_at got (drop size target) size k long behind
                    ∙ (get_elem?-drop size target (k - size)
                        ∙ even_at d lba target size k behind outside even))
          ]
    ]
