-- ===== src/Interrupts/Gates.antt =====
-- Where each vector of the table leads, as the processor reads a descriptor.
use eitan_os.Base.{
  ℕ, zero, suc, ◌+◌, ◌-◌, ◌*◌, ◌/◌, ◌%◌, ◌^◌, ◌<◌, ◌≤◌, ◌≡◌, refl, sym, ap, ◌∙◌, inl, inr, Bool,
  true, false, ◌==◌, ◌&&◌, ltb, leb, if◌then◌else◌, List, set, length, get_elem?, length-set,
  get_elem?-set_self, get_elem?-set_ne, Option, some, arith, Bool-cases, ==→eq, ==→ne,
}
use eitan_os.Interrupts.{IdtEntry, idt_entry, idt_set_descriptor, set_descriptors, idt_init}

abbrev within : ℕ → ℕ → ℕ → Bool
within vector count v = leb vector v && ltb v (vector + count)

length-set_descriptors :
    (count vector : ℕ) (isr : ℕ → ℕ) (flags : ℕ) (idt : List IdtEntry)
    → length (set_descriptors count vector isr flags idt) ≡ length idt
unfolding set_descriptors
length-set_descriptors zero vector isr flags idt = refl
length-set_descriptors (suc count) vector isr flags idt =
    length-set_descriptors count (vector + 1) isr flags
      (idt_set_descriptor idt vector (isr vector) flags)
    ∙ length-set idt (vector % 256) (idt_entry (isr vector) flags)

one_descriptor :
    (vector addr flags v : ℕ) (idt : List IdtEntry)
    → vector < 256
    → length idt ≡ 256
    → get_elem? (idt_set_descriptor idt vector addr flags) v
      ≡ (if v == vector then some (idt_entry addr flags) else get_elem? idt v)
one_descriptor vector addr flags v idt h len =
    let small : vector % 256 ≡ vector = omega (arith, h) in
    ap (λ i. get_elem? (set idt i (idt_entry addr flags)) v) small
    ∙ elim (Bool-cases (v == vector)) [
      | inl e ↦
          ap (get_elem? (set idt vector (idt_entry addr flags))) (==→eq v vector e)
          ∙ get_elem?-set_self idt vector (idt_entry addr flags) (omega (arith, h, len))
          ∙ ap (λ b. if b then some (idt_entry addr flags) else get_elem? idt v) (sym e)
      | inr e ↦
          get_elem?-set_ne idt vector v (idt_entry addr flags) (λ same. ==→ne v vector e (sym same))
          ∙ ap (λ b. if b then some (idt_entry addr flags) else get_elem? idt v) (sym e)
    ]

merge :
    (vector count v : ℕ) (first here_ old : Option IdtEntry)
    → (v ≡ vector → first ≡ here_)
    → (if within (vector + 1) count v then here_ else if v == vector then first else old)
      ≡ (if within vector (suc count) v then here_ else old)
merge vector count v first here_ old same = elim (Bool-cases (v == vector)) [
  | inl e ↦ let is = ==→eq v vector e in ground (arith, same is, is)
  | inr e ↦ let isnt = ==→ne v vector e in ground (arith, isnt)
]

many_descriptors :
    (count vector : ℕ) (isr : ℕ → ℕ) (flags v : ℕ) (idt : List IdtEntry)
    → vector + count ≤ 256
    → length idt ≡ 256
    → get_elem? (set_descriptors count vector isr flags idt) v
      ≡ (if within vector count v then some (idt_entry (isr v) flags) else get_elem? idt v)
unfolding set_descriptors
many_descriptors zero vector isr flags v idt h len = ground arith
many_descriptors (suc count) vector isr flags v idt h len =
    let one = one_descriptor vector (isr vector) flags v idt (omega (arith, h)) len in
    let rest =
      many_descriptors count (vector + 1) isr flags v
        (idt_set_descriptor idt vector (isr vector) flags) (omega (arith, h))
        (length-set idt (vector % 256) (idt_entry (isr vector) flags) ∙ len) in
    rest
    ∙ ap (λ o. if within (vector + 1) count v then some (idt_entry (isr v) flags) else o) one
    ∙ merge vector count v (some (idt_entry (isr vector) flags)) (some (idt_entry (isr v) flags))
        (get_elem? idt v) (λ same. ap (λ z. some (idt_entry (isr z) flags)) (sym same))

-- The handler that a vector is to have, and who may call it.
abbrev pub gate : (isr irq : ℕ → ℕ) → ℕ → ℕ → IdtEntry
gate isr irq syscall_handler v =
    if v == 0x80
    then idt_entry syscall_handler 0xEE
    else if ltb v 32
    then idt_entry (isr v) 0x8E
    else if ltb v 48
    then idt_entry (irq (v - 32)) 0x8E
    else idt_entry (isr 0) 0x8E

-- What the processor reads in a descriptor: the handler's address, and the level that may call it.
abbrev pub handler : IdtEntry → ℕ
handler d = d.isr_low + d.isr_mid * 2 ^ 16 + d.isr_high * 2 ^ 32

abbrev pub privilege : IdtEntry → ℕ
privilege d = d.attributes / 2 ^ 5 % 4

handler-idt_entry : (addr flags : ℕ) → addr < 2 ^ 64 → handler (idt_entry addr flags) ≡ addr
handler-idt_entry addr flags h = omega (arith, h)

idt_init-gate_entry :
    (isr irq : ℕ → ℕ) (syscall_handler v : ℕ) (idt : List IdtEntry)
    → length idt ≡ 256
    → v < 256
    → get_elem? (idt_init isr irq syscall_handler idt) v ≡ some (gate isr irq syscall_handler v)
unfolding idt_init
idt_init-gate_entry isr irq syscall_handler v idt len h =
    let all = set_descriptors 256 0 (λ vector. isr 0) 0x8E idt in
    let exceptions = set_descriptors 32 0 isr 0x8E all in
    let irqs = set_descriptors 16 32 (λ vector. irq (vector - 32)) 0x8E exceptions in
    let len1 = length-set_descriptors 256 0 (λ vector. isr 0) 0x8E idt ∙ len in
    let len2 = length-set_descriptors 32 0 isr 0x8E all ∙ len1 in
    let len3 = length-set_descriptors 16 32 (λ vector. irq (vector - 32)) 0x8E exceptions ∙ len2 in
    let a = many_descriptors 256 0 (λ vector. isr 0) 0x8E v idt (omega arith) len in
    let b = many_descriptors 32 0 isr 0x8E v all (omega arith) len1 in
    let c =
      many_descriptors 16 32 (λ vector. irq (vector - 32)) 0x8E v exceptions (omega arith) len2 in
    let d = one_descriptor 0x80 syscall_handler 0xEE v irqs (omega arith) len3 in
    ground (arith, a, b, c, d, h)

abbrev pub target : (isr irq : ℕ → ℕ) → ℕ → ℕ → ℕ
target isr irq syscall_handler v =
    if v == 0x80
    then syscall_handler
    else if ltb v 32
    then isr v
    else if ltb v 48
    then irq (v - 32)
    else isr 0

-- In the table of `interrupts_init` each vector has a descriptor: exceptions lead to their handler, the 16
-- interrupts to theirs, 0x80 to the system call handler, and all others to the handler of exception 0. Only
-- 0x80 may be called by programs.
pub idt_init-target :
    (isr irq : ℕ → ℕ) (syscall_handler v : ℕ) (idt : List IdtEntry)
    → ((k : ℕ) → isr k < 2 ^ 64)
    → ((k : ℕ) → irq k < 2 ^ 64)
    → syscall_handler < 2 ^ 64
    → length idt ≡ 256
    → v < 256
    → (d : IdtEntry) × (get_elem? (idt_init isr irq syscall_handler idt) v ≡ some d)
      × (handler d ≡ target isr irq syscall_handler v)
      × (privilege d ≡ (if v == 0x80 then 3 else 0))
idt_init-target isr irq syscall_handler v idt hi hq hs len h = (
  gate isr irq syscall_handler v,
  idt_init-gate_entry isr irq syscall_handler v idt len h,
  leads (v == 0x80) (ltb v 32) (ltb v 48),
  allows (v == 0x80) (ltb v 32) (ltb v 48),
)
  where
    chosen : Bool → Bool → Bool → IdtEntry
    chosen a b c =
        if a
        then idt_entry syscall_handler 0xEE
        else if b
        then idt_entry (isr v) 0x8E
        else if c
        then idt_entry (irq (v - 32)) 0x8E
        else idt_entry (isr 0) 0x8E

    leads :
        (a b c : Bool)
        → handler (chosen a b c)
          ≡ (if a then syscall_handler else if b then isr v else if c then irq (v - 32) else isr 0)
    leads true b c = handler-idt_entry syscall_handler 0xEE hs
    leads false true c = handler-idt_entry (isr v) 0x8E (hi v)
    leads false false true = handler-idt_entry (irq (v - 32)) 0x8E (hq (v - 32))
    leads false false false = handler-idt_entry (isr 0) 0x8E (hi 0)

    allows : (a b c : Bool) → privilege (chosen a b c) ≡ (if a then 3 else 0)
    allows true b c = refl
    allows false true c = refl
    allows false false true = refl
    allows false false false = refl
