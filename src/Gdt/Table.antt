-- ===== src/Gdt/Table.antt =====
-- What the table of `gdt_init` says to the processor, by selector.
use eitan_os.Base.{
  ℕ, zero, suc, ◌-◌, [], ◌∷◌, ◌+◌, ◌*◌, ◌/◌, ◌%◌, ◌^◌, ◌<◌, ◌≡◌, refl, ap, ◌∙◌, List, arith, some,
  get_elem?, drop, none, Option,
}
use eitan_os.Gdt.{GdtEntry, encode_gdt_entry, gdt_init, gdt_create_selector, tss_size}
use eitan_os.Gdt.Encoding.{decode, GdtEntry-eq, gdt_create_selector_lem}

abbrev flat : ℕ → ℕ → GdtEntry
flat access_byte flags = record {
  base = 0;
  limit = 0xFFFFF;
  access_byte = access_byte;
  flags = flags;
}

-- By index: none, code and data of the kernel, code and data of programs, and the task state segment,
-- of whose address a descriptor has the low half.
abbrev pub segments : ℕ → List GdtEntry
segments tss_base =
    record { base = 0; limit = 0; access_byte = 0; flags = 0 }
    ∷ flat 0x9A 0xA
    ∷ flat 0x92 0xC
    ∷ flat 0xFA 0xA
    ∷ flat 0xF2 0xC
    ∷ record { base = tss_base % 2 ^ 32; limit = tss_size - 1; access_byte = 0x89; flags = 0 }
    ∷ []

-- The word at an offset that a long descriptor adds to its address.
abbrev pub high_base : List ℕ → ℕ → Option ℕ
high_base (b0 ∷ b1 ∷ b2 ∷ b3 ∷ rest) zero = some (b0 + b1 * 2 ^ 8 + b2 * 2 ^ 16 + b3 * 2 ^ 24)
high_base (b ∷ bs) (suc at) = high_base bs at
high_base _ _ = none

read_entry :
    (tss_base index : ℕ)
    → index < 6
    → decode (drop (index * 8) (gdt_init tss_base)) ≡ get_elem? (segments tss_base) index
unfolding gdt_init encode_gdt_entry
read_entry tss_base zero h = refl
read_entry tss_base (suc zero) h = refl
read_entry tss_base (suc (suc zero)) h = refl
read_entry tss_base (suc (suc (suc zero))) h = refl
read_entry tss_base (suc (suc (suc (suc zero)))) h = refl
read_entry tss_base (suc (suc (suc (suc (suc zero))))) h =
    ap some (GdtEntry-eq (omega arith) refl refl refl)
read_entry tss_base (suc (suc (suc (suc (suc (suc index)))))) h = absurd (omega (arith, h))

read_high :
    (tss_base : ℕ)
    → tss_base < 2 ^ 64
    → high_base (gdt_init tss_base) 0x30 ≡ some (tss_base / 2 ^ 32)
unfolding gdt_init encode_gdt_entry
read_high tss_base h = ap some (omega (arith, h))

-- Under a selector into the table of `gdt_init`, whatever its privilege level, the processor finds the
-- segment that is meant, and in the word behind the task state segment's entry the high half of that
-- segment's address.
pub gdt_init-segment :
    (tss_base index rpl : ℕ)
    → tss_base < 2 ^ 64
    → index < 6
    → rpl < 4
    → (decode (drop (gdt_create_selector index 0 rpl / 8 * 8) (gdt_init tss_base))
        ≡ get_elem? (segments tss_base) index)
      × (high_base (gdt_init tss_base) 0x30 ≡ some (tss_base / 2 ^ 32))
gdt_init-segment tss_base index rpl high hi hr =
    let e = gdt_create_selector_lem index 0 rpl (omega (arith, hi)) (omega arith) hr in
    (
      ap (λ at. decode (drop at (gdt_init tss_base))) (omega (arith, e, hr))
          ∙ read_entry tss_base index hi,
      read_high tss_base high,
    )
