-- ===== src/Interrupts.antt =====
-- process/interrupts.c: the descriptors of the interrupt table that `interrupts_init` loads. The handlers
-- are assembler: their addresses are arguments.
pub mod Gates
mod Examples
use eitan_os.Base.{ℕ, zero, suc, ◌+◌, ◌-◌, ◌/◌, ◌%◌, ◌^◌, List, set}

-- `idt_entry_t`
pub record IdtEntry : Type 0 where
  pub isr_low : ℕ
  pub kernel_cs : ℕ
  pub ist : ℕ
  pub attributes : ℕ
  pub isr_mid : ℕ
  pub isr_high : ℕ
  pub reserved : ℕ

abbrev pub idt_entry : ℕ → ℕ → IdtEntry
idt_entry addr flags = record {
  isr_low = addr % 2 ^ 16;
  kernel_cs = 0x08;
  ist = 0;
  attributes = flags;
  isr_mid = addr / 2 ^ 16 % 2 ^ 16;
  isr_high = addr / 2 ^ 32 % 2 ^ 32;
  reserved = 0;
}

abbrev pub idt_set_descriptor : List IdtEntry → ℕ → ℕ → ℕ → List IdtEntry
idt_set_descriptor idt vector isr flags = set idt (vector % 256) (idt_entry isr flags)

-- `count` calls in a row, from `vector` on, each with the handler of its vector.
unfoldable pub set_descriptors : ℕ → ℕ → (ℕ → ℕ) → ℕ → List IdtEntry → List IdtEntry
set_descriptors zero vector isr flags idt = idt
set_descriptors (suc count) vector isr flags idt =
    set_descriptors count (vector + 1) isr flags (idt_set_descriptor idt vector (isr vector) flags)

-- The table, from what is in memory before: all vectors at `isr0`, exceptions, interrupts, system calls.
pub idt_init : (isr irq : ℕ → ℕ) → ℕ → List IdtEntry → List IdtEntry
idt_init isr irq syscall_handler idt =
    let all = set_descriptors 256 0 (λ vector. isr 0) 0x8E idt in
    let exceptions = set_descriptors 32 0 isr 0x8E all in
    let irqs = set_descriptors 16 32 (λ vector. irq (vector - 32)) 0x8E exceptions in
    idt_set_descriptor irqs 0x80 syscall_handler 0xEE
