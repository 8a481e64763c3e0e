-- ===== src/Gdt/Examples.antt =====
-- Concrete runs of gdt.c.
use eitan_os.Base.{◌≡◌, ◌^◌, ◌/◌, ◌*◌, some, get_elem?, drop, arith}
use eitan_os.Gdt.{gdt_init, gdt_create_selector}
use eitan_os.Gdt.Encoding.{decode}
use eitan_os.Gdt.Table.{segments, high_base, gdt_init-segment}

gdt_init-segment_example :
    (decode (drop (gdt_create_selector 4 0 3 / 8 * 8) (gdt_init 0xFFFFFFFF80001000))
      ≡ get_elem? (segments 0xFFFFFFFF80001000) 4)
    × (high_base (gdt_init 0xFFFFFFFF80001000) 0x30 ≡ some (0xFFFFFFFF80001000 / 2 ^ 32))
gdt_init-segment_example =
    gdt_init-segment 0xFFFFFFFF80001000 4 3 (omega arith) (omega arith) (omega arith)
