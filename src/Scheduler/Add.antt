-- ===== src/Scheduler/Add.antt =====
-- `process_scheduler_add_process` puts a new process behind the current one.
use eitan_os.Base.{ℕ, ◌+◌, ◌%◌, ◌^◌, ◌≡◌, ◌≢◌, Bool, List, ◌∷◌, All}
use eitan_os.Allocator.{Run, done}
use eitan_os.Scheduler.{Process, Machine, Scheduler, store, start_cpu}
use eitan_os.Scheduler.Find.{IsValid}

-- `new` behind `current`
abbrev insert : (ℕ → Process) → (current new : ℕ) → Process → ℕ → Process
insert procs current new x =
    let filled = store procs new x in store filled current (record (filled current) { next = new })

module _ {M : Type 0} (os : Machine M) where
  abbrev entry : ℕ → ℕ → Bool → Scheduler M → Process
  entry code pml4 is_kernel_level s = record {
    pid = (s.highest_pid + 1) % 2 ^ 32;
    regs = start_cpu code is_kernel_level;
    pending_signals = 0;
    pml4 = pml4;
    next = (s.processes s.current_process).next;
  }

  abbrev added : ℕ → ℕ → Bool → Scheduler M → ℕ × M → Scheduler M
  added code pml4 is_kernel_level s (new, m) = record s {
    highest_pid = (s.highest_pid + 1) % 2 ^ 32;
    processes = insert s.processes s.current_process new (entry code pml4 is_kernel_level s);
    machine = m;
  }

  -- It stands behind the current process, ready to start, under a number that no process had.
  abbrev pub Added :
      ℕ → ℕ → Bool → Scheduler M → ℕ → List ℕ → ℕ → M → Run (ℕ × Scheduler M) → Type 0
  Added code pml4 is_kernel_level s p ps new m r =
      (s' : Scheduler M) × (r ≡ done (s.highest_pid + 1, s'))
      × All (λ q. (s.processes q).pid ≢ s.highest_pid + 1) (p ∷ ps)
      × IsValid s' (p ∷ new ∷ ps)
      × ((s'.processes new).pid ≡ s.highest_pid + 1)
      × ((s'.processes new).regs ≡ start_cpu code is_kernel_level)
      × ((s'.processes new).pml4 ≡ pml4)
      × ((s'.processes new).pending_signals ≡ 0)
      × (s'.current_process ≡ s.current_process)
      × (s'.machine ≡ m)
      × All
          (λ q.
            ((s'.processes q).regs ≡ (s.processes q).regs)
            × ((s'.processes q).pending_signals ≡ (s.processes q).pending_signals)
            × ((s'.processes q).pml4 ≡ (s.processes q).pml4))
          (p ∷ ps)

  abbrev filled : ℕ → ℕ → Bool → Scheduler M → ℕ × M → Run (ℕ × Scheduler M)
  filled code pml4 is_kernel_level s allocated =
      done ((s.highest_pid + 1) % 2 ^ 32, added code pml4 is_kernel_level s allocated)
