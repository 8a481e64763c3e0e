-- ===== src/Scheduler/Picking.antt =====
-- The loop of a timer tick, which kills the processes of the circle until one is spared.
use eitan_os.Base.{
  ◌⊎◌, ℕ, zero, suc, ◌≤◌, ◌≡◌, ◌≢◌, refl, sym, ap, subst, ◌∙◌, inl, inr, Bool, true, List, [], ◌∷◌,
  ◌++◌, All, All-zip, All-append, here, arith, length, length-append, if◌then◌else◌, bit_and,
}
use eitan_os.Allocator.{Run, done}
use eitan_os.Scheduler.{
  Cpu, Process, Machine, Scheduler, store, continue, continue_twice, pick, handle_signals, sig_abrt,
  sig_kill,
}
use eitan_os.Scheduler.Ring.{store_self, store_other, store_field, OtherPid}
use eitan_os.Scheduler.Find.{IsValid}
use eitan_os.Scheduler.Remove.{retired}
use eitan_os.Scheduler.Signals.{step-IsValid, IsValid-write, handle_signals-Handled, cleared}
use eitan_os.Scheduler.Turns.{Doomed, Spared, Turn, stays, dies, same_start, first, behind, Retires}

module _ {M : Type 0} (os : Machine M) where
  -- A later state, with the numbers, tables and registers of the first, and the signals of those on the circle
  pub record Same (s0 : Scheduler M) (regs : ℕ → Cpu) (s : Scheduler M) (ps : List ℕ) : Type 0 where
    pub kernel : s.kernel_process ≡ s0.kernel_process
    pub pids : (q : ℕ) → (s.processes q).pid ≡ (s0.processes q).pid
    pub tables : (q : ℕ) → (s.processes q).pml4 ≡ (s0.processes q).pml4
    pub registers : (q : ℕ) → (s.processes q).regs ≡ regs q
    pub signals : All (λ q. (s.processes q).pending_signals ≡ (s0.processes q).pending_signals) ps

  -- The process whose turn it is in the end: its signals are cleared, and nothing else is changed.
  abbrev pub Picked : Scheduler M → (ℕ → Cpu) → List ℕ → M → Scheduler M → Type 0
  Picked s0 regs left m s' =
      IsValid s' left
      × (s'.machine ≡ m)
      × ((s'.processes s'.current_process).pending_signals ≡ 0)
      × (s'.kernel_process ≡ s0.kernel_process)
      × ((q : ℕ) → (s'.processes q).pml4 ≡ (s0.processes q).pml4)
      × ((q : ℕ) → (s'.processes q).regs ≡ regs q)

  abbrev pub turned : Scheduler M → Scheduler M
  turned s = record s { current_process = (s.processes s.current_process).next }

  abbrev or_again : (Scheduler M → Run (Scheduler M)) → Bool × Scheduler M → Run (Scheduler M)
  or_again again handled = if handled.0 then again handled.1 else done handled.1

  -- The body of the loop, for the process that is current
  abbrev one_turn : ℕ → ℕ → Scheduler M → Run (Scheduler M)
  one_turn rounds fuel s =
      continue (handle_signals os fuel s.current_process s) (or_again (pick os rounds fuel))

  retired-Same :
      (s0 s : Scheduler M) (regs : ℕ → Cpu) (ps : List ℕ) (p : ℕ) (m : M)
      → Same s0 regs s ps
      → retired os s p m ≡ retired os s0 p m
  retired-Same s0 s regs ps p m same =
      ap (λ t. continue (discard_of t (s.processes s.kernel_process).pml4) (os.free p))
        (same.tables p)
      ∙ ap (λ t. continue (discard_of (s0.processes p).pml4 t) (os.free p))
          (same.tables s.kernel_process ∙ ap (λ k. (s0.processes k).pml4) same.kernel)
    where
      discard_of : ℕ → ℕ → Run M
      discard_of table kernel =
          continue (os.unmap_heap (os.load_cpu (os.set_pml4 table m)))
            (λ unmapped. os.unmap_pml4 table (os.load_cpu (os.set_pml4 kernel unmapped)))

  -- The fate of a process is the same in a later state.
  never_both :
      (s0 s : Scheduler M) (regs : ℕ → Cpu) (p : ℕ) (ps : List ℕ)
      → Same s0 regs s (p ∷ ps)
      → Doomed s0.processes p
      → ((bit_and (s.processes p).pending_signals sig_abrt ≡ 0)
          × (bit_and (s.processes p).pending_signals sig_kill ≡ 0))
        ⊎ ((s.processes p).pid ≡ 0)
      → ⊥
  never_both s0 s regs p ps same (other, inl abrt) (inl (calm, spared)) =
      abrt (ap (λ g. bit_and g sig_abrt) (sym same.signals.0) ∙ calm)
  never_both s0 s regs p ps same (other, inr kill) (inl (calm, spared)) =
      kill (ap (λ g. bit_and g sig_kill) (sym same.signals.0) ∙ spared)
  never_both s0 s regs p ps same (other, why) (inr kernel) = other (sym (same.pids p) ∙ kernel)

  never_killed :
      (s0 s : Scheduler M) (regs : ℕ → Cpu) (p : ℕ) (ps : List ℕ)
      → Same s0 regs s (p ∷ ps)
      → Spared s0.processes p
      → (s.processes p).pid ≢ 0
      → (bit_and (s.processes p).pending_signals sig_abrt ≢ 0)
        ⊎ (bit_and (s.processes p).pending_signals sig_kill ≢ 0)
      → ⊥
  never_killed s0 s regs p ps same (inr kernel) other why = other (same.pids p ∙ kernel)
  never_killed s0 s regs p ps same (inl (calm, spared)) other (inl abrt) =
      abrt (ap (λ g. bit_and g sig_abrt) same.signals.0 ∙ calm)
  never_killed s0 s regs p ps same (inl (calm, spared)) other (inr kill) =
      kill (ap (λ g. bit_and g sig_kill) same.signals.0 ∙ spared)

  module _ (s0 : Scheduler M) (regs : ℕ → Cpu) where
    -- A process that is spared is the one to go on with.
    Spared-turn :
        (rounds fuel : ℕ) (s : Scheduler M) (p : ℕ) (ps : List ℕ)
        → IsValid s (p ∷ ps)
        → s.current_process ≡ p
        → Same s0 regs s (p ∷ ps)
        → Spared s0.processes p
        → length (p ∷ ps) ≤ fuel
        → Retires os s0 [] s.machine (Picked s0 regs (p ∷ ps)) (one_turn rounds fuel s)
    Spared-turn rounds fuel s p ps valid at same spared enough =
        let new = record (s.processes p) { pending_signals = 0 } in
        let valid' = IsValid-write s p new (p ∷ ps) refl refl valid in
        elim (handle_signals-Handled os fuel p s (p ∷ ps) valid here enough) [
          | inl (run, why) ↦ (
            cleared os s p,
            ap (λ z. continue (handle_signals os fuel z s) (or_again (pick os rounds fuel))) at
                ∙ ap (λ r. continue r (or_again (pick os rounds fuel))) run,
            (
              valid',
              refl,
              ap (λ z. (store s.processes p new z).pending_signals) at
                  ∙ ap Process.pending_signals (store_self s.processes p new),
              same.kernel,
              λ q. store_field Process.pml4 s.processes p new refl q ∙ same.tables q,
              λ q. store_field Process.regs s.processes p new refl q ∙ same.registers q,
            ),
          )
          | inr ((process, rest, after, turn, pid_e, nonzero, run, without), why) ↦ absurd (
              never_killed s0 s regs p ps same spared
                (λ zero_pid. nonzero (ap Process.pid (store_self s.processes p new) ∙ zero_pid))
                why)
        ]

    -- What is left of the circle, behind a process that is killed
    left_Same :
        (s s1 : Scheduler M) (p q : ℕ) (ps : List ℕ)
        → IsValid s (p ∷ q ∷ ps)
        → Same s0 regs s (p ∷ q ∷ ps)
        → s1.kernel_process ≡ s.kernel_process
        → ((z : ℕ)
            → ((s1.processes z).pid ≡ ((cleared os s p).processes z).pid)
              × ((s1.processes z).regs ≡ ((cleared os s p).processes z).regs)
              × ((s1.processes z).pending_signals ≡ ((cleared os s p).processes z).pending_signals)
              × ((s1.processes z).pml4 ≡ ((cleared os s p).processes z).pml4))
        → Same s0 regs (turned s1) (ps ++ q ∷ [])
    left_Same s s1 p q ps valid same kernel fields =
        let new = record (s.processes p) { pending_signals = 0 } in
        let kept =
          All-zip (OtherPid s.processes p)
            (λ z. (s.processes z).pending_signals ≡ (s0.processes z).pending_signals)
            (λ z. (s1.processes z).pending_signals ≡ (s0.processes z).pending_signals) (q ∷ ps)
            (λ z apart signals.
              (fields z).2
              ∙ ap Process.pending_signals
                  (store_other s.processes p z new (λ e. apart (ap (λ z. (s.processes z).pid) e)))
              ∙ signals)
            valid.loop.distinct.0 same.signals.1 in
        record {
          kernel = kernel ∙ same.kernel;
          pids = λ z. (fields z).0 ∙ store_field Process.pid s.processes p new refl z ∙ same.pids z;
          tables =
              λ z. (fields z).3 ∙ store_field Process.pml4 s.processes p new refl z ∙ same.tables z;
          registers = λ z.
              (fields z).1 ∙ store_field Process.regs s.processes p new refl z ∙ same.registers z;
          signals = All-append _ ps (q ∷ []) kept.1 (kept.0, tt);
        }

    cleared-Same :
        (s : Scheduler M) (p : ℕ) (ps : List ℕ)
        → Same s0 regs s ps
        → Same s0 regs (cleared os s p) []
    cleared-Same s p ps same =
        let new = record (s.processes p) { pending_signals = 0 } in
        record {
          kernel = same.kernel;
          pids = λ z. store_field Process.pid s.processes p new refl z ∙ same.pids z;
          tables = λ z. store_field Process.pml4 s.processes p new refl z ∙ same.tables z;
          registers = λ z. store_field Process.regs s.processes p new refl z ∙ same.registers z;
          signals = tt;
        }

    -- The loop from a process on retires those that the step relation has killed, and picks the one it comes to.
    pub Turn-Retires :
        (rounds fuel : ℕ) (s : Scheduler M) (ps killed left : List ℕ)
        → IsValid s ps
        → Same s0 regs s ps
        → Turn s0.processes ps killed left
        → length ps ≤ suc rounds
        → length ps ≤ fuel
        → Retires os s0 killed s.machine (Picked s0 regs left) (one_turn rounds fuel s)
    unfolding pick
    Turn-Retires rounds fuel s circle killed left valid same (stays {p} {ps} spared) f g =
        Spared-turn rounds fuel s p ps valid valid.loop.path.0 same spared g
    Turn-Retires zero fuel s circle all left valid same (dies {p} {q} {ps} {killed} doomed turn) f
          g =
        absurd (omega (arith, f))
    Turn-Retires (suc rounds) fuel s circle all left valid same
          (dies {p} {q} {ps} {killed} doomed turn) f g =
        let new = record (s.processes p) { pending_signals = 0 } in
        let pid_same = store_field Process.pid s.processes p new refl in
        let on = or_again (pick os (suc rounds) fuel) in
        elim (handle_signals-Handled os fuel p s (p ∷ q ∷ ps) valid here g) [
          | inl (run, inl calm) ↦ absurd (never_both s0 s regs p (q ∷ ps) same doomed (inl calm))
          | inl (run, inr kernel) ↦
              absurd (never_both s0 s regs p (q ∷ ps) same doomed (inr (sym (pid_same p) ∙ kernel)))
          | inr ((process, rest, after, rotated, pid_e, nonzero, run, without), why) ↦
              let start =
                same_start s.processes p process (q ∷ ps) rest valid.loop.distinct rotated
                  (sym (pid_same process) ∙ pid_e ∙ pid_same p) in
              let next : M → Run (Scheduler M) = λ m'. pick os (suc rounds) fuel (after m') in
              (
                next,
                ap (λ z. continue (handle_signals os fuel z s) on) valid.loop.path.0
                    ∙ ap (λ r. continue r on) run
                    ∙ continue_twice (retired os (cleared os s p) process s.machine)
                        (λ m'. done (true, after m')) on
                    ∙ ap (λ r. continue r next)
                        (retired-Same s0 (cleared os s p) regs [] process s.machine
                          (cleared-Same s p (p ∷ q ∷ ps) same))
                    ∙ ap (λ z. continue (retired os s0 z s.machine) next) (ap (first 0) start),
                λ m'.
                    let (valid', machine, kernel, fields) = without m' in
                    let size = length-append ps (q ∷ []) in
                    let turned_valid =
                      step-IsValid (after m') q ps
                        (subst (IsValid (after m')) (ap behind start) valid') in
                    subst (λ m. Retires os s0 killed m (Picked s0 regs left) (next m')) machine
                      (Turn-Retires rounds fuel (turned (after m')) (ps ++ q ∷ []) killed left
                        turned_valid (left_Same s (after m') p q ps valid same kernel fields) turn
                        (omega (arith, size, f)) (omega (arith, size, g))),
              )
        ]
