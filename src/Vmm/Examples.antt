-- ===== src/Vmm/Examples.antt =====
-- An address space of four tables with one page.
use eitan_os.Base.{◌==◌, ◌&&◌, if◌then◌else◌, ◌*◌, ◌+◌, ◌≡◌, refl, arith, true, [], ◌∷◌}
use eitan_os.Vmm.{Vmm, vmm_map_page, vmm_unmap_page, vmm_is_mapped}
use eitan_os.Vmm.Mapping.{MappedPage, vmm_map_page-MappedPage}
use eitan_os.Vmm.Lookup.{Unmapped, vmm_unmap_page-Unmapped}

-- The tables are the frames 1 to 4 at the pointers 4096 to 16384, and the page at 0 is frame 5.
abbrev one_page : Vmm
one_page = record {
  current = 4096;
  hhdm_offset = 0;
  pmm = record { bitmap = 0x3F ∷ []; total_frames = 8 };
  cr3 = 4096;
  tables = λ table index.
      if (index == 0) && (table == 4096)
      then 2 * 4096 + 7
      else if (index == 0) && (table == 8192)
      then 3 * 4096 + 7
      else if (index == 0) && (table == 12288)
      then 4 * 4096 + 7
      else if (index == 0) && (table == 16384)
      then 5 * 4096 + 3
      else 0;
}

page_mapped : vmm_is_mapped one_page 0x123 ≡ true
unfolding vmm_is_mapped
page_mapped = refl

vmm_unmap_page-Unmapped_example : Unmapped one_page 0x123 (vmm_unmap_page one_page 0x123)
vmm_unmap_page-Unmapped_example =
    vmm_unmap_page-Unmapped one_page 0x123
      (record { bytes = (omega arith, tt); covers = omega arith })

vmm_map_page-MappedPage_example :
    MappedPage one_page 0x1000 0x6000 (vmm_map_page one_page 0x1000 0x6000 3)
vmm_map_page-MappedPage_example =
    vmm_map_page-MappedPage one_page 0x1000 8192 12288 16384 0x6000 3 (refl, refl, refl)
      (
        λ e. absurd (omega (arith, e)),
        λ e. absurd (omega (arith, e)),
        λ e. absurd (omega (arith, e)),
      )
      (record { bytes = (omega arith, tt); covers = omega arith }) refl (omega arith) (omega arith)
