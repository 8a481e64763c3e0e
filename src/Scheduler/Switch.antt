-- ===== src/Scheduler/Switch.antt =====
-- The timer tick: the registers are saved, a process is picked, and the machine switches to it.
use eitan_os.Base.{
  ℕ, zero, suc, ◌≤◌, ◌≡◌, ◌≢◌, refl, ap, ◌∙◌, List, [], ◌∷◌, ◌++◌, All, arith, length,
  length-append,
}
use eitan_os.Allocator.{Run}
use eitan_os.Scheduler.{Cpu, Process, Machine, Scheduler, store, pick, next_process}
use eitan_os.Scheduler.Ring.{store_self, store_other, store_field}
use eitan_os.Scheduler.Find.{IsValid}
use eitan_os.Scheduler.Signals.{step-IsValid, IsValid-machine, IsValid-write, written}
use eitan_os.Scheduler.Turns.{Turn, Turn-exists, Retires, Retires-map}
use eitan_os.Scheduler.Picking.{Same, Picked, turned, Turn-Retires}

module _ {M : Type 0} (os : Machine M) where
  abbrev saved : Cpu → Scheduler M → Scheduler M
  saved regs s = record s {
    processes =
        store s.processes s.current_process
          (record (s.processes s.current_process) { regs = regs });
    machine = os.load_cpu (os.set_pml4 (s.processes s.kernel_process).pml4 s.machine);
  }

  abbrev entered : Scheduler M → Scheduler M
  entered s =
      let table = (s.processes s.current_process).pml4 in
      record s {
        machine = os.load_cpu (
            os.set_pml4 table
              (os.copy_kernel_pml4 table (s.processes s.kernel_process).pml4 s.machine));
      }

  abbrev resumed : Scheduler M → Cpu × Scheduler M
  resumed s = ((s.processes s.current_process).regs, entered s)

  -- The machine goes on with the registers and the table of the process that the circle now begins with, whose
  -- signals are cleared; the process that was interrupted has its registers saved, and all others have theirs
  -- as before.
  abbrev pub Resumed : Scheduler M → Cpu → List ℕ → M → Cpu × Scheduler M → Type 0
  Resumed s regs left m (cpu, s') =
      IsValid s' left
      × (cpu ≡ (s'.processes s'.current_process).regs)
      × ((s'.processes s'.current_process).pending_signals ≡ 0)
      × ((s'.processes s.current_process).regs ≡ regs)
      × ((q : ℕ) → q ≢ s.current_process → (s'.processes q).regs ≡ (s.processes q).regs)
      × (s'.machine ≡ (
          let table = (s.processes s'.current_process).pml4 in
          os.load_cpu
            (os.set_pml4 table (os.copy_kernel_pml4 table (s.processes s.kernel_process).pml4 m))))

  abbrev pub Switched : Scheduler M → Cpu → ℕ → List ℕ → Run (Cpu × Scheduler M) → Type 0
  Switched s regs p ps r =
      (killed : List ℕ) × (left : List ℕ) × Turn s.processes (ps ++ p ∷ []) killed left
      × Retires os s killed
          (os.load_cpu (os.set_pml4 (s.processes s.kernel_process).pml4 s.machine))
          (Resumed s regs left) r

  saved-Same :
      (regs : Cpu) (s : Scheduler M) (ps : List ℕ)
      → Same os s (λ q. ((saved regs s).processes q).regs) (turned os (saved regs s)) ps
  saved-Same regs s ps =
      let new = record (s.processes s.current_process) { regs = regs } in
      record {
        kernel = refl;
        pids = store_field Process.pid s.processes s.current_process new refl;
        tables = store_field Process.pml4 s.processes s.current_process new refl;
        registers = λ q. refl;
        signals =
            all_of
              (λ q. ((saved regs s).processes q).pending_signals ≡ (s.processes q).pending_signals)
              (store_field Process.pending_signals s.processes s.current_process new refl) ps;
      }
    where
      all_of : (P : ℕ → Type 0) → ((q : ℕ) → P q) → (qs : List ℕ) → All P qs
      all_of P f [] = tt
      all_of P f (q ∷ qs) = (f q, all_of P f qs)

  Picked-Resumed :
      (regs : Cpu) (s : Scheduler M) (left : List ℕ) (m : M) (s' : Scheduler M)
      → Picked os s (λ q. ((saved regs s).processes q).regs) left m s'
      → Resumed s regs left m (resumed s')
  Picked-Resumed regs s left m s' (valid, machine, clear, kernel, tables, registers) =
      let new = record (s.processes s.current_process) { regs = regs } in
      let enter : ℕ → ℕ → M → M =
        λ table kernel m. os.load_cpu (os.set_pml4 table (os.copy_kernel_pml4 table kernel m)) in
      (
        IsValid-machine s' (entered s').machine left valid,
        refl,
        clear,
        registers s.current_process
            ∙ ap Process.regs (store_self s.processes s.current_process new),
        λ q other.
            registers q ∙ ap Process.regs (store_other s.processes s.current_process q new other),
        ap (λ t. enter t (s'.processes s'.kernel_process).pml4 s'.machine)
              (tables s'.current_process)
            ∙ ap (λ k. enter (s.processes s'.current_process).pml4 k s'.machine)
                (tables s'.kernel_process ∙ ap (λ k. (s.processes k).pml4) kernel)
            ∙ ap (enter (s.processes s'.current_process).pml4 (s.processes s.kernel_process).pml4)
                machine,
      )

  -- On a valid circle, with rounds and fuel for every process, whatever the machine does: a timer tick saves the
  -- registers of the process that was interrupted and takes the turns of the circle from its successor on: the
  -- processes that the step relation has killed have their address space discarded and are freed, in that order,
  -- and if the machine comes back from that, the tick ends and goes on with the registers and the table of the
  -- process whose turn it then is, whose signals are cleared. The circle that is left is valid.
  pub next_process-Switched :
      (rounds fuel : ℕ) (regs : Cpu) (s : Scheduler M) (p : ℕ) (ps : List ℕ)
      → IsValid s (p ∷ ps)
      → length (p ∷ ps) ≤ rounds
      → length (p ∷ ps) ≤ fuel
      → Switched s regs p ps (next_process os rounds fuel regs s)
  unfolding next_process pick
  next_process-Switched zero fuel regs s p ps valid f g = absurd (omega (arith, f))
  next_process-Switched (suc rounds) fuel regs s p ps valid f g =
      let new = record (s.processes s.current_process) { regs = regs } in
      let s1 = saved regs s in
      let kept = IsValid-write s s.current_process new (p ∷ ps) refl refl valid in
      let valid1 = IsValid-machine (written s s.current_process new) s1.machine (p ∷ ps) kept in
      let turned_valid = step-IsValid s1 p ps valid1 in
      let size = length-append ps (p ∷ []) in
      let (killed, left, turn) =
        Turn-exists s.processes (length (ps ++ p ∷ [])) s.kernel_process (ps ++ p ∷ [])
          (omega arith) turned_valid.kernel valid.kernel_pid in
      let regs1 : ℕ → Cpu = λ q. (s1.processes q).regs in
      (
        killed,
        left,
        turn,
        Retires-map os s killed s1.machine (Picked os s regs1 left) (Resumed s regs left) resumed
            (pick os (suc rounds) fuel s1) (Picked-Resumed regs s left)
            (Turn-Retires os s regs1 rounds fuel (turned os s1) (ps ++ p ∷ []) killed left
              turned_valid (saved-Same regs s (ps ++ p ∷ [])) turn (omega (arith, size, f))
              (omega (arith, size, g))),
      )
