-- ===== src/Scheduler/Examples.antt =====
-- A circle of the kernel and two processes, on a heap that gives out one address after another.
use eitan_os.Base.{ℕ, suc, ◌≡◌, refl, true, [], ◌∷◌, here, arith, if◌then◌else◌, ◌==◌}
use eitan_os.Allocator.{null, Run, done}
use eitan_os.Scheduler.{
  Cpu, clear_cpu, Process, Machine, Scheduler, remove_process, handle_signals, next_process, pick,
  find_previous_process, unlink, circle,
}
use eitan_os.Scheduler.Find.{IsValid}
use eitan_os.Scheduler.Remove.{Removed, remove_process-Removed}
use eitan_os.Scheduler.Switch.{Switched, next_process-Switched}

abbrev bump : Machine ℕ
bump = record {
  set_pml4 = λ t m. m;
  load_cpu = λ m. m;
  unmap_pml4 = λ t m. done m;
  copy_kernel_pml4 = λ t k m. m;
  heap_init = λ size kernel m. done (true, m);
  unmap_heap = λ m. done m;
  malloc = λ size m. done (m, suc m);
  free = λ p m. done m;
}

abbrev made : ℕ → ℕ → ℕ → ℕ → Process
made pid pml4 pending next = record {
  pid = pid;
  regs = clear_cpu;
  pending_signals = pending;
  pml4 = pml4;
  next = next;
}

abbrev three : Scheduler ℕ
three = record {
  highest_pid = 2;
  current_process = 1;
  kernel_process = 1;
  processes = λ p. if p == 1 then made 0 7 0 2 else if p == 2 then made 1 8 256 3 else made 2 9 0 1;
  machine = 4;
}

three-IsValid : IsValid three (1 ∷ 2 ∷ 3 ∷ [])
three-IsValid = record {
  loop = record {
    path = (refl, (refl, (refl, refl)));
    distinct = (
      (λ e. absurd (omega (arith, e)), (λ e. absurd (omega (arith, e)), tt)),
      ((λ e. absurd (omega (arith, e)), tt), (tt, tt)),
    );
  };
  kernel = here;
  kernel_pid = refl;
  pids = (omega arith, (omega arith, (omega arith, tt)));
  highest = omega arith;
}

remove_process-Removed_example :
    Removed bump three (1 ∷ 2 ∷ 3 ∷ []) 1 (remove_process bump 3 1 three)
remove_process-Removed_example =
    remove_process-Removed bump 3 1 three (1 ∷ 2 ∷ 3 ∷ []) three-IsValid (omega arith)

next_process-Switched_example :
    Switched bump three clear_cpu 1 (2 ∷ 3 ∷ []) (next_process bump 3 3 clear_cpu three)
next_process-Switched_example =
    next_process-Switched bump 3 3 clear_cpu three 1 (2 ∷ 3 ∷ []) three-IsValid (omega arith)
      (omega arith)

-- The process that is killed takes its successor's turn with it: process 2, behind process 1 which is
-- killed, is passed over for the kernel.
abbrev switched_to : Run (Cpu × Scheduler ℕ) → ℕ
switched_to (done (regs, s)) = s.current_process
switched_to _ = null

successor_passed_over : switched_to (next_process bump 3 3 clear_cpu three) ≡ 1
unfolding next_process pick handle_signals remove_process find_previous_process unlink circle
successor_passed_over = refl
