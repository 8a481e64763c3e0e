-- ===== src/Gdt/Encoding.antt =====
-- A descriptor as the processor reads it back from its eight bytes, and the table that is loaded.
use eitan_os.Base.{
  ℕ, zero, suc, ◌+◌, ◌*◌, ◌/◌, ◌%◌, ◌^◌, ◌<◌, ◌≤◌, ◌≡◌, refl, ap, ◌∙◌, true, ◌==◌, bit_or, List,
  ◌∷◌, length, drop, arith, passes_up_to, passes_at, ==→eq, Option, none, some,
}
use eitan_os.Gdt.{GdtEntry, encode_gdt_entry, gdt_create_selector}

-- The layout of a segment descriptor in the processor's manual.
abbrev pub decode : List ℕ → Option GdtEntry
decode (l0 ∷ l1 ∷ b0 ∷ b1 ∷ b2 ∷ access ∷ mixed ∷ b3 ∷ rest) =
    let entry : GdtEntry = record {
      base = b0 + b1 * 2 ^ 8 + b2 * 2 ^ 16 + b3 * 2 ^ 24;
      limit = l0 + l1 * 2 ^ 8 + mixed % 16 * 2 ^ 16;
      access_byte = access;
      flags = mixed / 16;
    } in
    some entry
decode _ = none

-- An entry whose fields fit the descriptor.
pub record IsEncodable (e : GdtEntry) : Type 0 where
  pub base : e.base < 2 ^ 32
  pub limit : e.limit ≤ 0xFFFFF
  pub access : e.access_byte < 256
  pub flags : e.flags < 16

nibbles_table :
    passes_up_to 16 (λ x. passes_up_to 16 (λ f. bit_or x (f * 2 ^ 4) == x + f * 16)) ≡ true
unfolding passes_up_to
nibbles_table = refl

nibbles : (x f : ℕ) → x < 16 → f < 16 → bit_or x (f * 2 ^ 4) ≡ x + f * 16
nibbles x f hx hf = ==→eq _ _ (passes_at 16 _ f (passes_at 16 _ x nibbles_table hx) hf)

pub GdtEntry-eq :
    {a b : GdtEntry}
    → a.base ≡ b.base
    → a.limit ≡ b.limit
    → a.access_byte ≡ b.access_byte
    → a.flags ≡ b.flags
    → a ≡ b
GdtEntry-eq p q r s = λ i. record { base = p i; limit = q i; access_byte = r i; flags = s i }

bytes : GdtEntry → List ℕ → List ℕ
bytes e rest =
    e.limit % 256
    ∷ e.limit / 2 ^ 8 % 256
    ∷ e.base % 256
    ∷ e.base / 2 ^ 8 % 256
    ∷ e.base / 2 ^ 16 % 256
    ∷ e.access_byte
    ∷ (e.limit / 2 ^ 16 % 16 + e.flags * 16)
    ∷ e.base / 2 ^ 24 % 256
    ∷ rest

encode_lem :
    (e : GdtEntry) (c0 c1 c2 c3 c4 c5 c6 c7 : ℕ) (rest : List ℕ)
    → IsEncodable e
    → encode_gdt_entry (c0 ∷ c1 ∷ c2 ∷ c3 ∷ c4 ∷ c5 ∷ c6 ∷ c7 ∷ rest) 0 e ≡ bytes e rest
unfolding encode_gdt_entry bytes
encode_lem e c0 c1 c2 c3 c4 c5 c6 c7 rest ok =
    let n = nibbles (e.limit / 2 ^ 16 % 16) e.flags (omega arith) ok.flags in
    let b = ok.base in let l = ok.limit in let a = ok.access in let f = ok.flags in ground arith

decode-bytes : (e : GdtEntry) (rest : List ℕ) → IsEncodable e → decode (bytes e rest) ≡ some e
unfolding bytes
decode-bytes e rest ok =
    let b = ok.base in
    let l = ok.limit in
    let f = ok.flags in
    ap some (GdtEntry-eq (omega (arith, b)) (omega (arith, l, f)) refl (omega (arith, l, f)))

encode-shift :
    (x : ℕ) (xs : List ℕ) (t : ℕ) (e : GdtEntry)
    → encode_gdt_entry (x ∷ xs) (suc t) e ≡ x ∷ encode_gdt_entry xs t e
unfolding encode_gdt_entry
encode-shift x xs t e = ground arith

-- An entry whose fields fit, encoded anywhere in a table that has eight bytes there, is what the
-- processor reads back from there.
pub decode-encode_gdt_entry :
    (gdt : List ℕ) (target : ℕ) (e : GdtEntry)
    → IsEncodable e
    → target + 8 ≤ length gdt
    → decode (drop target (encode_gdt_entry gdt target e)) ≡ some e
decode-encode_gdt_entry (x ∷ xs) (suc t) e ok room =
    ap (λ ys. decode (drop (suc t) ys)) (encode-shift x xs t e)
    ∙ decode-encode_gdt_entry xs t e ok (omega (arith, room))
decode-encode_gdt_entry (c0 ∷ c1 ∷ c2 ∷ c3 ∷ c4 ∷ c5 ∷ c6 ∷ c7 ∷ rest) zero e ok room =
    ap decode (encode_lem e c0 c1 c2 c3 c4 c5 c6 c7 rest ok) ∙ decode-bytes e rest ok
decode-encode_gdt_entry _ _ e ok room = absurd (omega (arith, room))

selector_table :
    passes_up_to 256 (λ index.
      passes_up_to 2 (λ ti.
        passes_up_to 4 (λ rpl. gdt_create_selector index ti rpl == index * 8 + ti * 4 + rpl)))
    ≡ true
unfolding passes_up_to gdt_create_selector
selector_table = refl

-- A selector keeps its three fields apart: the index, one bit for the table and two for the level.
pub gdt_create_selector_lem :
    (index ti rpl : ℕ)
    → index < 256
    → ti < 2
    → rpl < 4
    → gdt_create_selector index ti rpl ≡ index * 8 + ti * 4 + rpl
gdt_create_selector_lem index ti rpl hi ht hr =
    ==→eq _ _ (passes_at 4 _ rpl (passes_at 2 _ ti (passes_at 256 _ index selector_table hi) ht) hr)

-- The segments that the kernel means to have, by index: none, code and data of the kernel, code and
-- data of programs, and the task state segment.
