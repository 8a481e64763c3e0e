-- ===== src/Vmm.antt =====
-- memory/vmm.c: four levels of page tables, as words by the pointer to the table and the index, over the
-- frames of Pmm. A bit that Pmm does not have is `none`, as there.
mod Entries
pub mod Lookup
pub mod Ranges
pub mod Walk
pub mod Mapping
mod Examples
pub use Entries.*
use eitan_os.Base.{
  ℕ, zero, suc, ◌+◌, ◌*◌, ◌/◌, ◌%◌, ◌^◌, ◌-◌, Bool, true, false, not, ◌==◌, ◌&&◌, ltb, leb,
  if◌then◌else◌, Option, none, some, add64, sub64,
}
use eitan_os.Base.Faults.{◌>>=◌}
use eitan_os.Pmm.{Pmm, alloc_frame, reserve_frame, free_frame, is_reserved}
use eitan_os.Allocator.{null, Run, done, panic, out_of_fuel}

-- The table that an entry points to; with `none` in place of a false return.
abbrev pub enter : Vmm → ℕ → ℕ → Option ℕ
enter v table index =
    let word = v.tables table index in
    if present word then some (add64 (frame_start word) v.hhdm_offset) else none

-- The pointer to the page table of an address, as every function but `vmm_map_page` finds it.
abbrev pub find_table : Vmm → ℕ → Option ℕ
find_table v virt =
    enter v v.current (pml4_index virt)
    >>= (λ pdpt. enter v pdpt (pdpt_index virt) >>= (λ pd. enter v pd (pd_index virt)))

-- A level of `vmm_map_page`: the next table, made if it is not there. The pointer to a new one is never
-- null where `hhdm_offset` is not, also if there is no frame; a null pointer is the inner `none`.
pub next_table : Vmm → ℕ → ℕ → Option (Option ℕ × Vmm)
next_table v table index =
    let word = v.tables table index in
    if present word
    then some (some (add64 (frame_start word) v.hhdm_offset), v)
    else alloc_frame v.pmm >>= (λ (frame, pmm).
      let made = add64 frame v.hhdm_offset in
      let v1 = record v { pmm = pmm } in
      let v2 = clear_table v1 made in
      let v3 =
        put_word v2 table index
          (with_physical_addr table_flags (sub64 made v.hhdm_offset / 2 ^ 12)) in
      if made == null then some (none, v1) else some (some made, v3))

-- The end of `vmm_map_page`, on the page table.
pub map_entry : Vmm → ℕ → ℕ → ℕ → ℕ → Option (Bool × Vmm)
map_entry v table virt phys flags =
    let index = pt_index virt in
    let mapped = λ (pmm : Pmm).
      put_word (record v { pmm = pmm }) table index (with_physical_addr flags (phys / 2 ^ 12)) in
    if present (v.tables table index)
    then some (false, v)
    else is_reserved v.pmm phys >>= (λ reserved.
      if reserved
      then some (true, mapped v.pmm)
      else reserve_frame v.pmm phys >>= (λ (taken, pmm).
        if taken then some (true, mapped pmm) else some (false, record v { pmm = pmm })))

-- What follows where a level was entered
abbrev level : Option ℕ × Vmm → (ℕ → Vmm → Option (Bool × Vmm)) → Option (Bool × Vmm)
level (none, v) f = some (false, v)
level (some table, v) f = f table v

pub vmm_map_page : Vmm → ℕ → ℕ → ℕ → Option (Bool × Vmm)
vmm_map_page v virt phys flags = next_table v v.current (pml4_index virt) >>= (λ r.
    level r (λ pdpt v1. next_table v1 pdpt (pdpt_index virt) >>= (λ r. level r (λ pd v2.
      next_table v2 pd (pd_index virt)
      >>= (λ r. level r (λ pt v3. map_entry v3 pt virt phys flags))))))

-- `if (pmm_is_reserved(phys)) pmm_free_frame(phys);`
pub release : Pmm → ℕ → Option Pmm
release pmm phys =
    is_reserved pmm phys >>= (λ reserved. if reserved then free_frame pmm phys else some pmm)

-- The end of `vmm_unmap_page`, on the page table.
pub unmap_entry : Vmm → ℕ → ℕ → Option (Bool × Vmm)
unmap_entry v table virt =
    let index = pt_index virt in
    let word = v.tables table index in
    if not (present word)
    then some (false, v)
    else release v.pmm (frame_start word)
      >>= (λ pmm. some (true, record (put_word v table index (without_present word)) { pmm = pmm }))

abbrev pub or_false : Vmm → Option ℕ → (ℕ → Option (Bool × Vmm)) → Option (Bool × Vmm)
or_false v none f = some (false, v)
or_false v (some table) f = f table

pub vmm_unmap_page : Vmm → ℕ → Option (Bool × Vmm)
vmm_unmap_page v virt = or_false v (find_table v virt) (λ table. unmap_entry v table virt)

-- The second half of `vmm_edit_page`: another frame.
pub edit_frame : Vmm → ℕ → ℕ → ℕ → ℕ → Option (Bool × Vmm)
edit_frame v table index current_phys phys =
    let moved = λ (pmm : Pmm).
      put_word (record v { pmm = pmm }) table index
        (with_physical_addr (v.tables table index) (phys / 2 ^ 12)) in
    release v.pmm current_phys >>= (λ freed. is_reserved freed phys >>= (λ reserved.
      if reserved
      then some (true, moved freed)
      else reserve_frame freed phys >>= (λ (taken, pmm).
        if taken then some (true, moved pmm) else some (false, record v { pmm = pmm }))))

-- The end of `vmm_edit_page`, on the page table.
pub edit_entry : Vmm → ℕ → ℕ → ℕ → ℕ → Option (Bool × Vmm)
edit_entry v table virt phys flags =
    let index = pt_index virt in
    let word = v.tables table index in
    let current_phys = frame_start word in
    let flagged =
      if flags == null
      then v
      else put_word v table index (with_physical_addr flags (current_phys / 2 ^ 12)) in
    if not (present word)
    then some (false, v)
    else if phys == null
    then some (true, flagged)
    else edit_frame flagged table index current_phys phys

pub vmm_edit_page : Vmm → ℕ → ℕ → ℕ → Option (Bool × Vmm)
vmm_edit_page v virt phys flags =
    or_false v (find_table v virt) (λ table. edit_entry v table virt phys flags)

abbrev pub has_page : Vmm → ℕ → Option ℕ → Bool
has_page v virt none = false
has_page v virt (some table) = present (v.tables table (pt_index virt))

pub vmm_is_mapped : Vmm → ℕ → Bool
vmm_is_mapped v virt = has_page v virt (find_table v virt)

-- The end of `vmm_virt_to_phys`: null, or the frame if it is reserved.
abbrev pub page_frame : Vmm → ℕ → Option ℕ → Option ℕ
page_frame v virt none = some null
page_frame v virt (some table) =
    let word = v.tables table (pt_index virt) in
    let phys = frame_start word in
    if not (present word)
    then some null
    else is_reserved v.pmm phys >>= (λ reserved. if reserved then some phys else some null)

pub vmm_virt_to_phys : Vmm → ℕ → Option ℕ
vmm_virt_to_phys v virt = page_frame v virt (find_table v virt)

abbrev pub vmm_set_pml4 : ℕ → Vmm → Vmm
vmm_set_pml4 table v = record v { current = table }

abbrev pub vmm_load_cpu : Vmm → Vmm
vmm_load_cpu v = record v { cr3 = sub64 v.current v.hhdm_offset }

-- `for (int i = 256; i < 512; i++) to->entries[i] = from->entries[i];`
abbrev pub vmm_copy_kernel_pml4 : ℕ → ℕ → Vmm → Vmm
vmm_copy_kernel_pml4 to from v = record v {
  tables = λ table index.
      if (table == to) && (leb 256 index && ltb index 512)
      then v.tables from index
      else v.tables table index;
}
