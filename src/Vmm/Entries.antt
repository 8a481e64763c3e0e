-- ===== src/Vmm/Entries.antt =====
-- The state of memory/vmm.c and the words of its tables.
use eitan_os.Base.{ℕ, ◌+◌, ◌*◌, ◌/◌, ◌%◌, ◌^◌, ◌-◌, Bool, ◌==◌, ◌&&◌, ltb, if◌then◌else◌}
use eitan_os.Pmm.{Pmm}

-- `current_PML4`, `hhdm_offset`, the frames, the processor's root, and the entries of all tables: the
-- word at an index of the table at a pointer.
pub record Vmm : Type 0 where
  pub current : ℕ
  pub hhdm_offset : ℕ
  pub pmm : Pmm
  pub cr3 : ℕ
  pub tables : ℕ → ℕ → ℕ

abbrev pub pml4_index : ℕ → ℕ
pml4_index virt = virt / 2 ^ 39 % 512

abbrev pub pdpt_index : ℕ → ℕ
pdpt_index virt = virt / 2 ^ 30 % 512

abbrev pub pd_index : ℕ → ℕ
pd_index virt = virt / 2 ^ 21 % 512

abbrev pub pt_index : ℕ → ℕ
pt_index virt = virt / 2 ^ 12 % 512

-- The fields of `page_entry_t`: bit 0, and bits 12 to 51.
abbrev pub present : ℕ → Bool
present word = word % 2 == 1

abbrev pub physical_addr : ℕ → ℕ
physical_addr word = word / 2 ^ 12 % 2 ^ 40

-- `physical_addr << 12`: a field of 40 bits keeps them in a shift, so the product is cut to 40 bits.
abbrev pub frame_start : ℕ → ℕ
frame_start word = physical_addr word * 2 ^ 12 % 2 ^ 40

-- Writes to the fields
abbrev pub with_physical_addr : ℕ → ℕ → ℕ
with_physical_addr word frame = word % 2 ^ 12 + frame % 2 ^ 40 * 2 ^ 12 + word / 2 ^ 52 * 2 ^ 52

abbrev pub without_present : ℕ → ℕ
without_present word = word - word % 2

-- `VMM_FLAGS_TABLE`
abbrev pub table_flags : ℕ
table_flags = 7

abbrev pub put_word : Vmm → ℕ → ℕ → ℕ → Vmm
put_word v table index word = record v {
  tables = λ t i. if (t == table) && (i == index) then word else v.tables t i;
}

-- `memset(table, 0, PAGE_SIZE)`
abbrev pub clear_table : Vmm → ℕ → Vmm
clear_table v table = record v {
  tables = λ t i. if (t == table) && ltb i 512 then 0 else v.tables t i;
}
