-- ===== src/Interrupts/Examples.antt =====
-- Handlers at made-up addresses.
use eitan_os.Base.{
  ℕ, ◌+◌, ◌*◌, ◌%◌, ◌^◌, ◌≡◌, ◌==◌, if◌then◌else◌, get_elem?, replicate, length-replicate, some,
  arith,
}
use eitan_os.Interrupts.{IdtEntry, idt_entry, idt_init}
use eitan_os.Interrupts.Gates.{handler, privilege, target, idt_init-target}

abbrev isr : ℕ → ℕ
isr k = (0xFFFFFFFF80001000 + k * 16) % 2 ^ 64

abbrev irq : ℕ → ℕ
irq k = (0xFFFFFFFF80002000 + k * 16) % 2 ^ 64

idt_init-target_example :
    (d : IdtEntry) × (get_elem?
        (idt_init isr irq 0xFFFFFFFF80003000 (replicate {A = IdtEntry} 256 (idt_entry 0 0)))
        33
      ≡ some d)
    × (handler d ≡ target isr irq 0xFFFFFFFF80003000 33)
    × (privilege d ≡ (if 33 == 0x80 then 3 else 0))
idt_init-target_example =
    idt_init-target isr irq 0xFFFFFFFF80003000 33 (replicate {A = IdtEntry} 256 (idt_entry 0 0))
      (λ k. omega arith) (λ k. omega arith) (omega arith)
      (length-replicate {A = IdtEntry} 256 (idt_entry 0 0)) (omega arith)
