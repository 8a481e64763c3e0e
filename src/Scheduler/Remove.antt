-- ===== src/Scheduler/Remove.antt =====
-- `process_scheduler_remove_process` takes one process off the circle and leaves the others on it.
use eitan_os.Base.{
  ℕ, ◌≤◌, ◌≡◌, ◌≢◌, ◌⊎◌, refl, sym, ap, subst, ◌∙◌, inl, inr, Bool, true, false, List, [], ◌∷◌,
  ◌++◌, All, All-map, All-append, All-swap, Member, Member-right, Member-left, Member-swap, Rotated,
  append_assoc, here, there, arith, length, ==→eq, ==→ne, Bool-cases, if◌then◌else◌, ◌==◌,
}
use eitan_os.Allocator.{Run, done}
use eitan_os.Scheduler.{
  Process, Machine, Scheduler, continue, next_has_pid, discard, find_previous_process, unlink,
  remove_process,
}
use eitan_os.Scheduler.Ring.{store_field, IsLoop, IsLoop-swap}
use eitan_os.Scheduler.Bypass.{bypass, bypass-IsLoop, all_successors}
use eitan_os.Scheduler.Find.{IsValid, searched}

still_Member :
    (a prev process : ℕ) (rest : List ℕ)
    → process ≢ a
    → Member a (prev ∷ process ∷ rest)
    → Member a (rest ++ prev ∷ [])
still_Member a prev process rest other here = Member-right a rest (a ∷ []) here
still_Member a prev process rest other (there here) = absurd (other refl)
still_Member a prev process rest other (there (there m)) = Member-left a rest (prev ∷ []) m

-- The circle as it is begun at another of its processes.
pub IsValid-swap :
    {M : Type 0} (s : Scheduler M) (q : ℕ) (xs ys : List ℕ)
    → IsValid s (xs ++ q ∷ ys)
    → IsValid (record s { current_process = q }) (q ∷ ys ++ xs)
IsValid-swap s q xs ys valid = record {
  loop = IsLoop-swap s.processes s.current_process q xs ys valid.loop;
  kernel = Member-swap s.kernel_process xs (q ∷ ys) valid.kernel;
  kernel_pid = valid.kernel_pid;
  pids = All-swap _ xs (q ∷ ys) valid.pids;
  highest = valid.highest;
}

module _ {M : Type 0} (os : Machine M) where
  -- What the machine does to a process that is removed: its address space is discarded and it is freed.
  abbrev pub retired : Scheduler M → ℕ → M → Run M
  retired s process m =
      continue (discard os (s.processes process).pml4 (s.processes s.kernel_process).pml4 m)
        (os.free process)

  -- Whatever state the machine is left in, the process is off the circle, which starts with its successor
  -- now, and no number, register, signal or table is changed.
  abbrev pub Without : Scheduler M → List ℕ → (M → Scheduler M) → Type 0
  Without s rest after =
      (m : M)
      → IsValid (after m) rest
        × ((after m).machine ≡ m)
        × ((after m).kernel_process ≡ s.kernel_process)
        × ((q : ℕ)
            → (((after m).processes q).pid ≡ (s.processes q).pid)
              × (((after m).processes q).regs ≡ (s.processes q).regs)
              × (((after m).processes q).pending_signals ≡ (s.processes q).pending_signals)
              × (((after m).processes q).pml4 ≡ (s.processes q).pml4))

  -- The process with the identifier is retired, and off the circle behind that.
  abbrev pub Gone : Scheduler M → List ℕ → ℕ → Run (Bool × Scheduler M) → Type 0
  Gone s ps pid r =
      (process : ℕ) × (rest : List ℕ) × (after : M → Scheduler M) × Rotated ps (process ∷ rest)
      × ((s.processes process).pid ≡ pid)
      × (pid ≢ 0)
      × (r ≡ continue (retired s process s.machine) (λ m. done (true, after m)))
      × Without s rest after

  -- Nothing is done, since the identifier is the kernel's or no process has it, or the process is gone.
  abbrev pub Removed : Scheduler M → List ℕ → ℕ → Run (Bool × Scheduler M) → Type 0
  Removed s ps pid r =
      (((pid ≡ 0) ⊎ All (λ p. (s.processes p).pid ≢ pid) ps) × (r ≡ done (false, s)))
      ⊎ Gone s ps pid r

  abbrev without_next : ℕ → Scheduler M → M → Scheduler M
  without_next prev s m =
      let next_next = (s.processes (s.processes prev).next).next in
      record s {
        processes = bypass s.processes prev next_next;
        current_process = next_next;
        machine = m;
      }

  abbrev removed : Scheduler M → Run (Bool × Scheduler M)
  removed s = done (true, s)

  unlink_run :
      (prev : ℕ) (s : Scheduler M)
      → unlink os prev s
        ≡ continue
            (retired s (s.processes prev).next s.machine)
            (λ m. removed (without_next prev s m))
  unfolding unlink
  unlink_run prev s = refl

  unlinked :
      (s : Scheduler M) (prev process : ℕ) (rest : List ℕ) (m : M)
      → IsValid (record s { current_process = prev }) (prev ∷ process ∷ rest)
      → process ≢ s.kernel_process
      → IsValid (without_next prev s m) (rest ++ prev ∷ [])
  unlinked s prev process rest m valid other =
      let e = valid.loop.path.1.0 in
      let next_next = (s.processes (s.processes prev).next).next in
      let new = record (s.processes prev) { next = next_next } in
      let pid_same = store_field Process.pid s.processes prev new refl in
      record {
        loop =
            subst
              (λ z.
                IsLoop (bypass s.processes prev (s.processes z).next) (s.processes z).next
                  (rest ++ prev ∷ []))
              (sym e) (bypass-IsLoop s.processes prev process rest valid.loop);
        kernel = still_Member s.kernel_process prev process rest other valid.kernel;
        kernel_pid = pid_same s.kernel_process ∙ valid.kernel_pid;
        pids =
            All-append _ rest (prev ∷ [])
              (All-map _ _ rest (λ q. subst (λ z. z ≤ s.highest_pid) (sym (pid_same q)))
                valid.pids.1.1)
              (subst (λ z. z ≤ s.highest_pid) (sym (pid_same prev)) valid.pids.0, tt);
        highest = valid.highest;
      }

  unlink-Removed :
      (s : Scheduler M) (prev pid : ℕ) (ps before after ds : List ℕ)
      → ps ≡ before ++ prev ∷ after
      → after ++ before ≡ ds
      → IsValid (record s { current_process = prev }) (prev ∷ ds)
      → (s.processes (s.processes prev).next).pid ≡ pid
      → pid ≢ 0
      → Removed s ps pid (unlink os prev s)
  unlink-Removed s prev pid ps before after [] e d valid meant nonzero = absurd (
      nonzero (
        sym meant
        ∙ ap (λ z. (s.processes z).pid) (valid.loop.path.1 ∙ alone valid.kernel)
        ∙ valid.kernel_pid))
    where
      alone : {a b : ℕ} → Member a (b ∷ []) → b ≡ a
      alone here = refl
      alone (there m) = elim m [ ]
  unlink-Removed s prev pid ps before after (process ∷ rest) e d valid meant nonzero =
      let next = valid.loop.path.1.0 in
      let pid_e = ap (λ z. (s.processes z).pid) (sym next) ∙ meant in
      let other : process ≢ s.kernel_process =
        λ same. nonzero (sym pid_e ∙ ap (λ z. (s.processes z).pid) same ∙ valid.kernel_pid) in
      let new = record (s.processes prev) { next = (s.processes (s.processes prev).next).next } in
      inr (
        process,
        rest ++ prev ∷ [],
        without_next prev s,
        (
          before ++ prev ∷ [],
          after,
          e ∙ sym (append_assoc before (prev ∷ []) after),
          ap (λ l. l ++ prev ∷ []) (sym d) ∙ append_assoc after before (prev ∷ []),
        ),
        pid_e,
        nonzero,
        unlink_run prev s
            ∙ ap (λ z. continue (retired s z s.machine) (λ m. removed (without_next prev s m)))
                next,
        λ m. (
          unlinked s prev process rest m valid other,
          refl,
          refl,
          λ q. (
            store_field Process.pid s.processes prev new refl q,
            store_field Process.regs s.processes prev new refl q,
            store_field Process.pending_signals s.processes prev new refl q,
            store_field Process.pml4 s.processes prev new refl q,
          ),
        ),
      )

  abbrev after_search : Scheduler M → Bool × ℕ → Run (Bool × Scheduler M)
  after_search s found = if found.0 then unlink os found.1 s else done (false, s)

  remove_run :
      (fuel pid : ℕ) (s : Scheduler M) (found : Bool × ℕ)
      → (pid == 0) ≡ false
      → find_previous_process os fuel pid s ≡ done found
      → remove_process os fuel pid s ≡ after_search s found
  unfolding remove_process
  remove_run fuel pid s found nonzero run =
      ap
        (λ b.
          if b
          then done (false, s)
          else continue (find_previous_process os fuel pid s) (after_search s))
        nonzero
      ∙ ap (λ r. continue r (after_search s)) run

  -- With fuel for every process, whatever the machine does: for the kernel's identifier, and for one that no
  -- process has, `process_scheduler_remove_process` returns false and changes nothing. Otherwise it discards the
  -- address space of the process that has the identifier and frees it, and if the machine comes back from that,
  -- it returns true, the circle starts with the successor now and has all others in their order, their numbers,
  -- registers, signals and tables are as before, and the invariant holds.
  pub remove_process-Removed :
      (fuel pid : ℕ) (s : Scheduler M) (ps : List ℕ)
      → IsValid s ps
      → length ps ≤ fuel
      → Removed s ps pid (remove_process os fuel pid s)
  unfolding remove_process find_previous_process
  remove_process-Removed fuel pid s ps valid f = elim (Bool-cases (pid == 0)) [
    | inl zero_pid ↦ inl (inl (==→eq pid 0 zero_pid), ground (arith, zero_pid))
    | inr nonzero ↦
        elim (searched fuel (next_has_pid s.processes pid) s.processes s.current_process
          s.kernel_process ps valid.loop valid.kernel f) [
            | inl (before, prev, after, e, run, meant) ↦
                subst (Removed s ps pid) (sym (remove_run fuel pid s (true, prev) nonzero run)) (
                  unlink-Removed s prev pid ps before after (after ++ before) e refl
                    (IsValid-swap s prev before after (subst (IsValid s) e valid))
                    (==→eq _ pid meant) (==→ne pid 0 nonzero))
            | inr (none, run) ↦ inl (
              inr (
                  all_successors s.processes (λ p. (s.processes p).pid ≢ pid) s.current_process ps
                    valid.loop.path
                    (All-map (λ p. next_has_pid s.processes pid p ≡ false) _ ps
                      (λ p miss. ==→ne _ pid miss) none)),
              remove_run fuel pid s (false, s.current_process) nonzero run,
            )
          ]
  ]
