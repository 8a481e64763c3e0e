-- ===== src/Gdt.antt =====
-- gdt.c: the bytes of a segment descriptor, the table that `gdt_init` builds, and selectors.
pub mod Encoding
pub mod Table
mod Examples
use eitan_os.Base.{
  ℕ, ◌+◌, ◌-◌, ◌*◌, ◌/◌, ◌%◌, ◌^◌, Bool, true, false, bit_or, ltb, if◌then◌else◌, List, [], ◌∷◌,
  set, get_elem?, Option, none, some, replicate,
}

-- `GDT_entry`
pub record GdtEntry : Type 0 where
  pub base : ℕ
  pub limit : ℕ
  pub access_byte : ℕ
  pub flags : ℕ

abbrev byte_or_zero : Option ℕ → ℕ
byte_or_zero none = 0
byte_or_zero (some b) = b

-- `target[i] = v`, and `target[i] |= v`, for `target` at an offset in the table
abbrev pub poke : List ℕ → ℕ → ℕ → List ℕ
poke gdt at v = set gdt at (v % 256)

abbrev pub poke_or : List ℕ → ℕ → ℕ → List ℕ
poke_or gdt at v = set gdt at (bit_or (byte_or_zero (get_elem? gdt at)) v % 256)

unfoldable pub encode_gdt_entry : List ℕ → ℕ → GdtEntry → List ℕ
encode_gdt_entry gdt target source =
    if ltb 0xFFFFF source.limit
    then gdt
    else let g0 = poke gdt target source.limit in
      let g1 = poke g0 (target + 1) (source.limit / 2 ^ 8) in
      let g2 = poke g1 (target + 6) (source.limit / 2 ^ 16 % 16) in
      let g3 = poke g2 (target + 2) source.base in
      let g4 = poke g3 (target + 3) (source.base / 2 ^ 8) in
      let g5 = poke g4 (target + 4) (source.base / 2 ^ 16) in
      let g6 = poke g5 (target + 7) (source.base / 2 ^ 24) in
      let g7 = poke g6 (target + 5) source.access_byte in
      poke_or g7 (target + 6) (source.flags * 2 ^ 4)

-- `sizeof(kernel_tss)`, of a packed structure
abbrev pub tss_size : ℕ
tss_size = 104

abbrev pub code_and_data : List ℕ → List ℕ
code_and_data g0 =
    let g1 = encode_gdt_entry g0 0 (record { base = 0; limit = 0; access_byte = 0; flags = 0 }) in
    let g2 =
      encode_gdt_entry g1 0x08
        (record { base = 0; limit = 0xFFFFF; access_byte = 0x9A; flags = 0xA }) in
    let g3 =
      encode_gdt_entry g2 0x10
        (record { base = 0; limit = 0xFFFFF; access_byte = 0x92; flags = 0xC }) in
    let g4 =
      encode_gdt_entry g3 0x18
        (record { base = 0; limit = 0xFFFFF; access_byte = 0xFA; flags = 0xA }) in
    encode_gdt_entry g4 0x20 (record { base = 0; limit = 0xFFFFF; access_byte = 0xF2; flags = 0xC })

-- The table that `gdt_init` loads, for a task state segment at `tss_base`.
unfoldable pub gdt_init : ℕ → List ℕ
gdt_init tss_base =
    let g5 =
      encode_gdt_entry (code_and_data (replicate {A = ℕ} 56 0)) 0x28 (record {
        base = tss_base % 2 ^ 32;
        limit = tss_size - 1;
        access_byte = 0x89;
        flags = 0;
      }) in
    let g6 = poke g5 0x30 (tss_base / 2 ^ 32) in
    let g7 = poke g6 0x31 (tss_base / 2 ^ 40) in
    let g8 = poke g7 0x32 (tss_base / 2 ^ 48) in poke g8 0x33 (tss_base / 2 ^ 56)

-- `(index << 3) | (TI << 2) | RPL`
unfoldable pub gdt_create_selector : ℕ → ℕ → ℕ → ℕ
gdt_create_selector index ti rpl = bit_or (bit_or (index * 8) (ti * 4)) rpl % 2 ^ 16
