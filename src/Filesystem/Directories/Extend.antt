-- ===== src/Filesystem/Directories/Extend.antt =====
-- filesystem.c: the bytes that `add_file_to_dir` writes behind the entries of a directory.
use eitan_os.Base.{
  ℕ, zero, suc, ◌+◌, ◌≤◌, ◌≡◌, refl, sym, ap, ◌∙◌, List, [], ◌∷◌, ◌++◌, append_assoc, append_nil,
  length-append, length, set, arith,
}
use eitan_os.Filesystem.Table.{le32}
use eitan_os.Filesystem.Paths.{write_at}
use eitan_os.Filesystem.Directories.{with_entry}
use eitan_os.Filesystem.Directories.Listing.{DirEntry, entry_then, listing}

-- A list in two parts, with their lengths
pub cut :
    (n : ℕ) (l : List ℕ)
    → n ≤ length l
    → (front back : List ℕ) × (l ≡ front ++ back)
      × (length front ≡ n)
      × (n + length back ≡ length l)
cut zero l h = ([], l, refl, refl, omega arith)
cut (suc n) [] h = absurd (omega (arith, h))
cut (suc n) (x ∷ l) h =
    let (front, back, parts, long, rest) = cut n l (omega (arith, h)) in
    (x ∷ front, back, ap (λ l. x ∷ l) parts, ap suc long, omega (arith, rest))

pub last_of :
    (n : ℕ) (l : List ℕ)
    → length l ≡ suc n
    → (front : List ℕ) × (x : ℕ) × (l ≡ front ++ x ∷ []) × (length front ≡ n)
last_of n [] h = absurd (omega (arith, h))
last_of zero (x ∷ []) h = ([], x, refl, refl)
last_of (suc n) (x ∷ []) h = absurd (omega (arith, h))
last_of zero (x ∷ y ∷ l) h = absurd (omega (arith, h))
last_of (suc n) (x ∷ y ∷ l) h =
    let (front, z, parts, long) = last_of n (y ∷ l) (omega (arith, h)) in
    (x ∷ front, z, ap (λ l. x ∷ l) parts, ap suc long)

set_at : (xs ys : List ℕ) (y n v : ℕ) → n ≡ length xs → set (xs ++ y ∷ ys) n v ≡ xs ++ v ∷ ys
set_at [] ys y zero v h = refl
set_at [] ys y (suc n) v h = absurd (omega (arith, h))
set_at (x ∷ xs) ys y zero v h = absurd (omega (arith, h))
set_at (x ∷ xs) ys y (suc n) v h = ap (λ l. x ∷ l) (set_at xs ys y n v (omega (arith, h)))

write_over :
    (bytes old xs ys : List ℕ) (n : ℕ)
    → n ≡ length xs
    → length old ≡ length bytes
    → write_at (xs ++ (old ++ ys)) n bytes ≡ xs ++ (bytes ++ ys)
write_over [] [] xs ys n at long = refl
write_over [] (o ∷ old) xs ys n at long = absurd (omega (arith, long))
write_over (b ∷ bytes) [] xs ys n at long = absurd (omega (arith, long))
write_over (b ∷ bytes) (o ∷ old) xs ys n at long =
    ap (λ l. write_at l (n + 1) bytes)
      (set_at xs (old ++ ys) o n b at ∙ sym (append_assoc xs (b ∷ []) (old ++ ys)))
    ∙ (write_over bytes old (xs ++ b ∷ []) ys (n + 1) (omega (arith, at, length-append xs (b ∷ [])))
          (omega (arith, long))
        ∙ append_assoc xs (b ∷ []) (bytes ++ ys))

-- The three writes over a slot of 64 bytes, where `f` is what the first 59 of them hold after the second
pub with_bytes :
    (xs bytes p q b f : List ℕ) (w i : ℕ)
    → length p ≡ length bytes
    → length b ≡ 4
    → length f ≡ 59
    → bytes ++ q ≡ f ++ w ∷ []
    → with_entry (xs ++ (p ++ (q ++ b))) (length xs) i bytes ≡ xs ++ (f ++ 0 ∷ le32 i)
with_bytes xs bytes p q b f w i over four long parts =
    let front : length (p ++ q) ≡ 60 = omega (
      arith,
      over,
      long,
      ap length parts,
      length-append bytes q,
      length-append p q,
      length-append f (w ∷ []),
    ) in
    let regroup : (c : List ℕ) → (xs ++ (p ++ q)) ++ c ≡ xs ++ (p ++ (q ++ c)) =
      λ c. append_assoc xs (p ++ q) c ∙ ap (λ l. xs ++ l) (append_assoc p q c) in
    let first : write_at (xs ++ (p ++ (q ++ b))) (length xs + 60) (le32 i)
        ≡ xs ++ (p ++ (q ++ le32 i)) =
      ap (λ l. write_at l (length xs + 60) (le32 i))
        (sym (regroup b) ∙ ap (λ l. (xs ++ (p ++ q)) ++ l) (sym (append_nil b)))
      ∙ (write_over (le32 i) b (xs ++ (p ++ q)) [] (length xs + 60)
            (omega (arith, front, length-append xs (p ++ q))) four
          ∙ regroup (le32 i)) in
    let second = write_over bytes p xs (q ++ le32 i) (length xs) refl over in
    let third : xs ++ (bytes ++ (q ++ le32 i)) ≡ (xs ++ f) ++ w ∷ le32 i =
      ap (λ l. xs ++ l)
        (sym (append_assoc bytes q (le32 i))
          ∙ (ap (λ l. l ++ le32 i) parts ∙ append_assoc f (w ∷ []) (le32 i)))
      ∙ sym (append_assoc xs f (w ∷ le32 i)) in
    ap (λ l. set l (length xs + 59) 0)
      (ap (λ l. write_at l (length xs) bytes) first ∙ (second ∙ third))
    ∙ (set_at (xs ++ f) (le32 i) w (length xs + 59) 0 (omega (arith, long, length-append xs f))
        ∙ append_assoc xs f (0 ∷ le32 i))

pub listing_then : (es : List DirEntry) (rest : List ℕ) → listing es rest ≡ listing es [] ++ rest
listing_then [] rest = refl
listing_then (e ∷ es) rest =
    ap (entry_then e) (listing_then es rest)
    ∙ sym (
        append_assoc e.name (0 ∷ (e.padding ++ (le32 e.index ++ listing es []))) rest
        ∙ ap (λ l. e.name ++ 0 ∷ l) (append_assoc e.padding (le32 e.index ++ listing es []) rest))
