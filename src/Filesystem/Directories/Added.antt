-- ===== src/Filesystem/Directories/Added.antt =====
-- filesystem.c: the new entry that `add_file_to_dir` writes, with its name or what fits of it.
use eitan_os.Base.{
  ℕ, ◌+◌, ◌-◌, ◌*◌, ◌≤◌, ◌≡◌, refl, sym, ap, ◌∙◌, List, [], ◌∷◌, ◌++◌, append_assoc, append_nil,
  length-append, All, length, arith, dec_le,
}
use eitan_os.Text.Compare.{c_string}
use eitan_os.Filesystem.Table.{le32}
use eitan_os.Filesystem.Directories.{with_entry}
use eitan_os.Filesystem.Directories.Listing.{
  DirEntry, IsEntry, listing, listing-append, length-listing,
}
use eitan_os.Filesystem.Directories.Extend.{cut, last_of, with_bytes, listing_then}

-- The buffer has the entries and a new one with the name and the index.
abbrev pub Extended : List DirEntry → List ℕ → ℕ → List ℕ → Type 0
Extended es name i buffer =
    (padding : List ℕ) × (length name + length padding ≡ 59)
    × (buffer ≡ listing (es ++ record { name = name; padding = padding; index = i } ∷ []) [])

-- What the slot holds after the copy of the name, up to its last byte before the index
padded :
    (name u q : List ℕ) (w : ℕ)
    → q ≡ u ++ w ∷ []
    → c_string name [] ++ q ≡ c_string name u ++ w ∷ []
padded name u q w parts =
    append_assoc name (0 ∷ []) q
    ∙ (ap (c_string name) parts ∙ sym (append_assoc name (0 ∷ u) (w ∷ [])))

unpadded : (name q : List ℕ) → length q ≡ 0 → c_string name [] ++ q ≡ name ++ 0 ∷ []
unpadded name [] h = append_nil (c_string name [])
unpadded name (x ∷ q) h = absurd (omega (arith, h))

padded_sum :
    (name u : List ℕ)
    → length u + length name ≡ 58
    → (length (c_string name u) ≡ 59) × (length name + length (u ++ 0 ∷ []) ≡ 59)
padded_sum name u sum =
    (omega (arith, sum, length-append name (0 ∷ u)), omega (arith, sum, length-append u (0 ∷ [])))

module _ (es : List DirEntry) (slot : List ℕ) (i : ℕ) (entries : All IsEntry es)
    (room : length slot ≡ 64) where
  -- The new entry as the bytes behind the others, when the first 59 of its bytes are a name, its zero and more
  slotted :
      (name padding : List ℕ)
      → (f : List ℕ) → f ++ 0 ∷ [] ≡ c_string name padding
      → length name + length padding ≡ 59
      → listing es [] ++ (f ++ 0 ∷ le32 i)
        ≡ listing (es ++ record { name = name; padding = padding; index = i } ∷ []) []
  slotted name padding f text long =
      ap (λ l. listing es [] ++ l)
        (sym (append_assoc f (0 ∷ []) (le32 i))
          ∙ (ap (λ l. l ++ le32 i) text ∙ append_assoc name (0 ∷ padding) (le32 i)))
      ∙ (sym (listing_then es (c_string name (padding ++ le32 i)))
          ∙ sym (listing-append es (record { name = name; padding = padding; index = i } ∷ []) []))

  -- The writes to a slot, given its parts
  extended :
      (bytes f name padding : List ℕ) (p rest : List ℕ)
      → slot ≡ p ++ rest
      → length p ≡ length bytes
      → (q b : List ℕ) → rest ≡ q ++ b
      → length b ≡ 4
      → (w : ℕ) → bytes ++ q ≡ f ++ w ∷ []
      → length f ≡ 59
      → f ++ 0 ∷ [] ≡ c_string name padding
      → length name + length padding ≡ 59
      → Extended es name i (with_entry (listing es slot) (64 * length es) i bytes)
  extended bytes f name padding p rest slot_parts over q b rest_parts four w bytes_parts long text
        sum =
      let at : 64 * length es ≡ length (listing es []) =
        omega (arith, length-listing es [] entries) in
      (
        padding,
        sum,
        ap (λ l. with_entry l (64 * length es) i bytes)
              (listing_then es slot
                ∙ ap (λ l. listing es [] ++ l) (slot_parts ∙ ap (λ l. p ++ l) rest_parts))
            ∙ (ap (λ n. with_entry (listing es [] ++ (p ++ (q ++ b))) n i bytes) at
                ∙ (with_bytes (listing es []) bytes p q b f w i over four long bytes_parts
                    ∙ slotted name padding f text sum)),
      )

  -- A name of at most 59 bytes is copied with its zero behind the other entries.
  pub with_entry-Extended :
      (name : List ℕ)
      → length name ≤ 59
      → Extended es name i (with_entry (listing es slot) (64 * length es) i (c_string name []))
  with_entry-Extended name short =
      let bytes = c_string name [] in
      let measure : length bytes ≡ length name + 1 = omega (arith, length-append name (0 ∷ [])) in
      let (p, rest, slot_parts, over, left) =
        cut (length bytes) slot (omega (arith, measure, room, short)) in
      let (q, b, rest_parts, long, last) =
        cut (59 - length name) rest (omega (arith, left, room, measure, short)) in
      let four : length b ≡ 4 = omega (arith, left, room, measure, short, last) in
      elim (dec_le 59 (length name)) [
        | yes full ↦
            extended bytes name name [] p rest slot_parts over q b rest_parts four 0
              (unpadded name q (omega (arith, full, long))) (omega (arith, full, short)) refl
              (omega (arith, full, short))
        | no less ↦
            let (u, w, q_parts, short_u) =
              last_of (58 - length name) q (omega (arith, long, less, short)) in
            let (long_f, sum) = padded_sum name u (omega (arith, short_u, less, short)) in
            extended bytes (c_string name u) name (u ++ 0 ∷ []) p rest slot_parts over q b
              rest_parts four w (padded name u q w q_parts) long_f
              (append_assoc name (0 ∷ u) (0 ∷ [])) sum
      ]

  -- Of a name of 60 bytes, which has no room for its zero, the last byte is overwritten by the zero.
  pub with_entry_cut :
      (front : List ℕ) (c : ℕ)
      → length front ≡ 59
      → Extended es front i (with_entry (listing es slot) (64 * length es) i (front ++ c ∷ []))
  with_entry_cut front c long =
      let bytes = front ++ c ∷ [] in
      let measure : length bytes ≡ 60 = omega (arith, long, length-append front (c ∷ [])) in
      let (p, rest, slot_parts, over, left) =
        cut (length bytes) slot (omega (arith, measure, room)) in
      let four : length rest ≡ 4 = omega (arith, measure, left, room) in
      extended bytes front front [] p rest slot_parts over [] rest refl four c (append_nil bytes)
        long refl (omega (arith, long))
