-- ===== src/Scheduler/State.antt =====
-- The data of process/process_scheduler.c, and the interface to what it calls.
use eitan_os.Base.{ℕ, Bool, ◌≡◌, refl, ◌==◌, if◌then◌else◌}
use eitan_os.Allocator.{Run, done, panic, out_of_fuel}

-- `cpu_state_t`
pub record Cpu : Type 0 where
  pub gs : ℕ
  pub fs : ℕ
  pub r15 : ℕ
  pub r14 : ℕ
  pub r13 : ℕ
  pub r12 : ℕ
  pub r11 : ℕ
  pub r10 : ℕ
  pub r9 : ℕ
  pub r8 : ℕ
  pub rbp : ℕ
  pub rdi : ℕ
  pub rsi : ℕ
  pub rdx : ℕ
  pub rcx : ℕ
  pub rbx : ℕ
  pub rax : ℕ
  pub error_code : ℕ
  pub rip : ℕ
  pub cs : ℕ
  pub rflags : ℕ
  pub rsp : ℕ
  pub ss : ℕ

abbrev pub clear_cpu : Cpu
clear_cpu = record {
  gs = 0;
  fs = 0;
  r15 = 0;
  r14 = 0;
  r13 = 0;
  r12 = 0;
  r11 = 0;
  r10 = 0;
  r9 = 0;
  r8 = 0;
  rbp = 0;
  rdi = 0;
  rsi = 0;
  rdx = 0;
  rcx = 0;
  rbx = 0;
  rax = 0;
  error_code = 0;
  rip = 0;
  cs = 0;
  rflags = 0;
  rsp = 0;
  ss = 0;
}

-- `process_t`
pub record Process : Type 0 where
  pub pid : ℕ
  pub regs : Cpu
  pub pending_signals : ℕ
  pub pml4 : ℕ
  pub next : ℕ

-- What the scheduler uses of the address spaces and the heaps, in their own state `M`.
pub record Machine (M : Type 0) : Type 0 where
  pub set_pml4 : ℕ → M → M
  pub load_cpu : M → M
  pub unmap_pml4 : ℕ → M → Run M
  pub copy_kernel_pml4 : ℕ → ℕ → M → M
  pub heap_init : ℕ → Bool → M → Run (Bool × M)
  pub unmap_heap : M → Run M
  pub malloc : ℕ → M → Run (ℕ × M)
  pub free : ℕ → M → Run M

pub record Scheduler (M : Type 0) : Type 0 where
  pub highest_pid : ℕ
  pub current_process : ℕ
  pub kernel_process : ℕ
  pub processes : ℕ → Process
  pub machine : M

abbrev pub store : (ℕ → Process) → ℕ → Process → ℕ → Process
store procs p process q = if q == p then process else procs q

-- The next call of a sequence.
abbrev pub continue {ℓ κ} : {A : Type ℓ} {B : Type κ} → Run A → (A → Run B) → Run B
continue (done a) f = f a
continue panic f = panic
continue out_of_fuel f = out_of_fuel

pub continue_twice :
    {A B C : Type 0} (r : Run A) (f : A → Run B) (g : B → Run C)
    → continue (continue r f) g ≡ continue r (λ a. continue (f a) g)
continue_twice (done a) f g = refl
continue_twice panic f g = refl
continue_twice out_of_fuel f g = refl
