-- ===== src/Vmm/Ranges.antt =====
-- The functions of memory/vmm.c on many pages, and on whole address spaces.
use eitan_os.Base.{
  ℕ, zero, suc, ◌+◌, ◌*◌, ◌/◌, Bool, true, false, not, ◌==◌, ltb, if◌then◌else◌, Option, none, some,
  add64, sub64,
}
use eitan_os.Base.Faults.{◌>>=◌}
use eitan_os.Pmm.{alloc_frame, free_frame}
use eitan_os.Allocator.{null, Run, done, out_of_fuel}
use eitan_os.Vmm.{
  Vmm, enter, clear_table, vmm_map_page, vmm_unmap_page, vmm_edit_page, vmm_is_mapped,
  vmm_copy_kernel_pml4, vmm_set_pml4, vmm_load_cpu,
}

abbrev pub page_size : ℕ
page_size = 4096

-- `end_virt / PAGE_SIZE - start_virt / PAGE_SIZE + 1`
abbrev pub page_count : ℕ → ℕ → ℕ
page_count start_virt end_virt = add64 (sub64 (end_virt / page_size) (start_virt / page_size)) 1

-- `start_virt + i * PAGE_SIZE`
abbrev pub page : ℕ → ℕ → ℕ
page start_virt i = add64 start_virt (i * page_size)

abbrev forget : Option (Bool × Vmm) → Option Vmm
forget r = r >>= (λ (done_, v). some v)

-- `for (uint64_t i = 0; i < amount; i++) vmm_unmap_page(start_virt + i * PAGE_SIZE);`
pub unmap_pages : ℕ → ℕ → ℕ → Vmm → Option Vmm
unmap_pages zero i start_virt v = some v
unmap_pages (suc amount) i start_virt v =
    forget (vmm_unmap_page v (page start_virt i)) >>= unmap_pages amount (i + 1) start_virt

pub vmm_free : ℕ → ℕ → Vmm → Option Vmm
vmm_free start_virt end_virt v = unmap_pages (page_count start_virt end_virt) 0 start_virt v

-- The first loop of `vmm_alloc`, with `failed_i`; the first argument is how many pages are left.
pub alloc_pages : ℕ → ℕ → ℕ → ℕ → Vmm → Option (ℕ × Vmm)
alloc_pages zero i start_virt flags v = some (i, v)
alloc_pages (suc amount) i start_virt flags v =
    let again = alloc_pages amount (i + 1) start_virt flags in
    alloc_frame v.pmm >>= (λ (frame, pmm).
      let v1 = record v { pmm = pmm } in
      if frame == null
      then some (i, v1)
      else vmm_map_page v1 (page start_virt i) frame flags >>= (λ (success, v2).
        if success
        then again v2
        else free_frame v2.pmm frame >>= (λ pmm. some (i, record v2 { pmm = pmm }))))

pub vmm_alloc : ℕ → ℕ → ℕ → Vmm → Option (Bool × Vmm)
vmm_alloc start_virt end_virt flags v =
    let amount = page_count start_virt end_virt in
    alloc_pages amount 0 start_virt flags v >>= (λ (failed_i, v1).
      if ltb failed_i amount
      then unmap_pages failed_i 0 start_virt v1 >>= (λ v2. some (false, v2))
      else some (true, v1))

pub edit_pages : ℕ → ℕ → Bool → ℕ → ℕ → Vmm → Option (Bool × Vmm)
edit_pages zero i success start_virt flags v = some (success, v)
edit_pages (suc amount) i success start_virt flags v =
    vmm_edit_page v (page start_virt i) null flags >>= (λ (s, v1).
      edit_pages amount (i + 1) (if not s then false else success) start_virt flags v1)

pub vmm_edit_pages : ℕ → ℕ → ℕ → Vmm → Option (Bool × Vmm)
vmm_edit_pages start_virt end_virt flags v =
    edit_pages (page_count start_virt end_virt) 0 true start_virt flags v

-- The address wraps behind the last page, so the loop need not end.
pub vmm_are_mapped : ℕ → Vmm → ℕ → ℕ → Run Bool
vmm_are_mapped zero v virt end_virt = out_of_fuel
vmm_are_mapped (suc fuel) v virt end_virt =
    let again = vmm_are_mapped fuel v (add64 virt page_size) end_virt in
    if ltb end_virt virt
    then done true
    else if not (vmm_is_mapped v virt)
    then done false
    else again

pub vmm_create_pml4 : Vmm → Option (Option ℕ × Vmm)
vmm_create_pml4 v = alloc_frame v.pmm >>= (λ (frame, pmm).
    let addr = add64 frame v.hhdm_offset in
    let v1 = record v { pmm = pmm } in
    if addr == null then some (none, v1) else some (some addr, clear_table v1 addr))

-- `for (int i = 0; i < 512; i++)` over the tables that are present below a table, each of which is
-- unmapped after what is below it.
pub below : (ℕ → Vmm → Option Vmm) → ℕ → ℕ → ℕ → Vmm → Option Vmm
below inner zero i table v = some v
below inner (suc left) i table v =
    let again = below inner left (i + 1) table in
    elim (enter v table i) [
      | none ↦ again v
      | some next ↦ inner next v >>= (λ v1. forget (vmm_unmap_page v1 next) >>= again)
    ]

pub vmm_unmap_pml4 : ℕ → Vmm → Option Vmm
vmm_unmap_pml4 pml4 v =
    below (below (below (λ pt v. some v) 512 0) 512 0) 512 0 pml4 v
    >>= (λ v1. forget (vmm_unmap_page v1 pml4))

-- `vmm_init`, from the offset that the loader gives and the root that it left in the processor.
pub vmm_init : ℕ → ℕ → Vmm → Option (Option ℕ × Vmm)
vmm_init offset loader_root v =
    vmm_create_pml4 (record v { hhdm_offset = offset }) >>= (λ (created, v1). elim created [
      | none ↦ some (none, v1)
      | some kernel ↦ some (
        some kernel,
        vmm_load_cpu
            (vmm_set_pml4 kernel (vmm_copy_kernel_pml4 kernel (add64 loader_root offset) v1)),
      )
    ])
