-- ===== src/Scheduler/Signals.antt =====
-- The invariant under writes and turns, and the signals that kill a process.
use eitan_os.Base.{
  ℕ, ◌≤◌, ◌≡◌, ◌≢◌, ◌⊎◌, refl, sym, ap, subst, ◌∙◌, inl, inr, Bool, true, false, List, [], ◌∷◌,
  ◌++◌, All, All-map, All-Member, ==→eq, ==→ne, Member, Rotated, arith, length, length-append,
  if◌then◌else◌, ◌==◌, bit_and,
}
use eitan_os.Allocator.{Run, done}
use eitan_os.Scheduler.{
  Process, Machine, Scheduler, store, continue, continue_twice, handle_signals, kill_by, sig_abrt,
  sig_kill, remove_process,
}
use eitan_os.Scheduler.Ring.{store_field}
use eitan_os.Scheduler.Bypass.{Follows-keep, Distinct-keep}
use eitan_os.Scheduler.Find.{IsValid}
use eitan_os.Scheduler.Remove.{retired, Gone, Removed, remove_process-Removed, IsValid-swap}

pub length-Rotated : (xs ys : List ℕ) → Rotated xs ys → length xs ≡ length ys
length-Rotated xs ys (a, b, e, e') =
    ap length e ∙ length-append a b ∙ omega (arith, length-append b a) ∙ ap length (sym e')

all_of : (P : ℕ → Type 0) → ((q : ℕ) → P q) → (ps : List ℕ) → All P ps
all_of P f [] = tt
all_of P f (p ∷ ps) = (f p, all_of P f ps)

module _ {M : Type 0} where
  abbrev pub written : Scheduler M → ℕ → Process → Scheduler M
  written s p x = record s { processes = store s.processes p x }

  -- A write to a process that leaves its number and its pointer keeps the invariant.
  pub IsValid-write :
      (s : Scheduler M) (p : ℕ) (x : Process) (ps : List ℕ)
      → x.pid ≡ (s.processes p).pid
      → x.next ≡ (s.processes p).next
      → IsValid s ps
      → IsValid (written s p x) ps
  IsValid-write s p x ps pid next valid =
      let pid_same = store_field Process.pid s.processes p x pid in
      let next_same = store_field Process.next s.processes p x next in
      record {
        loop = record {
          path =
              Follows-keep s.processes (store s.processes p x) s.current_process s.current_process
                ps (all_of _ next_same ps) valid.loop.path;
          distinct =
              Distinct-keep s.processes (store s.processes p x) ps pid_same valid.loop.distinct;
        };
        kernel = valid.kernel;
        kernel_pid = pid_same s.kernel_process ∙ valid.kernel_pid;
        pids = All-map _ _ ps (λ q. subst (λ z. z ≤ s.highest_pid) (sym (pid_same q))) valid.pids;
        highest = valid.highest;
      }

  pub IsValid-machine :
      (s : Scheduler M) (m : M) (ps : List ℕ) → IsValid s ps → IsValid (record s { machine = m }) ps
  IsValid-machine s m ps valid = record {
    loop = valid.loop;
    kernel = valid.kernel;
    kernel_pid = valid.kernel_pid;
    pids = valid.pids;
    highest = valid.highest;
  }

  -- The circle as it is begun at the next process.
  pub step-IsValid :
      (s : Scheduler M) (p : ℕ) (ps : List ℕ)
      → IsValid s (p ∷ ps)
      → IsValid (record s { current_process = (s.processes s.current_process).next }) (ps ++ p ∷ [])
  step-IsValid s p [] valid =
      let (e, on) = valid.loop.path in
      subst (λ z. IsValid (record s { current_process = z }) (p ∷ []))
        (sym (ap (λ z. (s.processes z).next) e ∙ on)) valid
  step-IsValid s p (q ∷ qs) valid =
      let (e, (on, path)) = valid.loop.path in
      subst (λ z. IsValid (record s { current_process = z }) (q ∷ qs ++ p ∷ []))
        (sym (ap (λ z. (s.processes z).next) e ∙ on)) (IsValid-swap s q (p ∷ []) qs valid)

module _ {M : Type 0} (os : Machine M) where
  -- The process stays, since the signal is not there or it is the kernel's, or it is gone.
  abbrev pub Killed : Type 0 → Type 0 → Scheduler M → List ℕ → ℕ → Run (Bool × Scheduler M) → Type 0
  Killed spared struck s ps p r =
      ((r ≡ done (false, s)) × (spared ⊎ ((s.processes p).pid ≡ 0)))
      ⊎ (Gone os s ps (s.processes p).pid r × struck)

  Removed-Killed :
      (spared struck : Type 0) (s : Scheduler M) (ps : List ℕ) (p : ℕ)
      (r : Run (Bool × Scheduler M))
      → Member p ps
      → struck
      → Removed os s ps (s.processes p).pid r
      → Killed spared struck s ps p r
  Removed-Killed spared struck s ps p r m why (inl (inl zero_pid, run)) = inl (run, inr zero_pid)
  Removed-Killed spared struck s ps p r m why (inl (inr absent, run)) =
      absurd (All-Member (λ q. (s.processes q).pid ≢ (s.processes p).pid) p ps absent m refl)
  Removed-Killed spared struck s ps p r m why (inr gone) = inr (gone, why)

  kill_by-Killed :
      (sig fuel sigs p : ℕ) (s : Scheduler M) (ps : List ℕ)
      → IsValid s ps
      → Member p ps
      → length ps ≤ fuel
      → Killed (bit_and sigs sig ≡ 0) (bit_and sigs sig ≢ 0) s ps p (kill_by os sig fuel sigs p s)
  kill_by-Killed sig fuel sigs p s ps valid m f =
      choose (bit_and sigs sig == 0) (==→eq (bit_and sigs sig) 0) (==→ne (bit_and sigs sig) 0)
    where
      choose :
          (b : Bool)
          → (b ≡ true → bit_and sigs sig ≡ 0)
          → (b ≡ false → bit_and sigs sig ≢ 0)
          → Killed
              (bit_and sigs sig ≡ 0)
              (bit_and sigs sig ≢ 0)
              s
              ps
              p
              (if b then done (false, s) else remove_process os fuel (s.processes p).pid s)
      choose true is isnt = inl (refl, inl (is refl))
      choose false is isnt =
          Removed-Killed (bit_and sigs sig ≡ 0) (bit_and sigs sig ≢ 0) s ps p _ m (isnt refl)
            (remove_process-Removed os fuel (s.processes p).pid s ps valid f)

  abbrev pub cleared : Scheduler M → ℕ → Scheduler M
  cleared s p = written s p (record (s.processes p) { pending_signals = 0 })

  abbrev pub Handled : Scheduler M → List ℕ → ℕ → Run (Bool × Scheduler M) → Type 0
  Handled s ps p r =
      let sigs = (s.processes p).pending_signals in
      Killed ((bit_and sigs sig_abrt ≡ 0) × (bit_and sigs sig_kill ≡ 0))
        ((bit_and sigs sig_abrt ≢ 0) ⊎ (bit_and sigs sig_kill ≢ 0)) (cleared s p) ps p r

  abbrev then_kill : ℕ → ℕ → ℕ → Bool × Scheduler M → Run (Bool × Scheduler M)
  then_kill fuel sigs p aborted =
      if aborted.0 then done aborted else kill_by os sig_kill fuel sigs p aborted.1

  second_signal :
      (s : Scheduler M) (ps : List ℕ) (p : ℕ) (r : Run (Bool × Scheduler M))
      → (bit_and (s.processes p).pending_signals sig_abrt ≡ 0)
        ⊎ (((cleared s p).processes p).pid ≡ 0)
      → Killed
          (bit_and (s.processes p).pending_signals sig_kill ≡ 0)
          (bit_and (s.processes p).pending_signals sig_kill ≢ 0)
          (cleared s p)
          ps
          p
          r
      → Handled s ps p r
  second_signal s ps p r (inl clear) (inl (run, inl spared)) = inl (run, inl (clear, spared))
  second_signal s ps p r (inr zero_pid) (inl (run, why)) = inl (run, inr zero_pid)
  second_signal s ps p r why (inl (run, inr zero_pid)) = inl (run, inr zero_pid)
  second_signal s ps p r why (inr (gone, struck)) = inr (gone, inr struck)

  -- With fuel for every process, handling the signals of a process of the circle clears them, and kills it
  -- exactly where SIGABRT or SIGKILL was pending and it is not the kernel's.
  pub handle_signals-Handled :
      (fuel p : ℕ) (s : Scheduler M) (ps : List ℕ)
      → IsValid s ps
      → Member p ps
      → length ps ≤ fuel
      → Handled s ps p (handle_signals os fuel p s)
  unfolding handle_signals
  handle_signals-Handled fuel p s ps valid m f =
      let sigs = (s.processes p).pending_signals in
      let ready =
        IsValid-write s p (record (s.processes p) { pending_signals = 0 }) ps refl refl valid in
      both (kill_by os sig_abrt fuel sigs p (cleared s p))
        (kill_by-Killed sig_abrt fuel sigs p (cleared s p) ps ready m f)
        (kill_by-Killed sig_kill fuel sigs p (cleared s p) ps ready m f)
    where
      both :
          (r : Run (Bool × Scheduler M))
          → Killed
              (bit_and (s.processes p).pending_signals sig_abrt ≡ 0)
              (bit_and (s.processes p).pending_signals sig_abrt ≢ 0)
              (cleared s p)
              ps
              p
              r
          → Killed
              (bit_and (s.processes p).pending_signals sig_kill ≡ 0)
              (bit_and (s.processes p).pending_signals sig_kill ≢ 0)
              (cleared s p)
              ps
              p
              (kill_by os sig_kill fuel (s.processes p).pending_signals p (cleared s p))
          → Handled s ps p (continue r (then_kill fuel (s.processes p).pending_signals p))
      both r (inl (run, why)) second =
          subst
            (λ r. Handled s ps p (continue r (then_kill fuel (s.processes p).pending_signals p)))
            (sym run) (second_signal s ps p _ why second)
      both r (inr ((process, rest, after, turn, pid_e, nonzero, run, without), why)) second = inr (
        (
          process,
          rest,
          after,
          turn,
          pid_e,
          nonzero,
          ap (λ r. continue r (then_kill fuel (s.processes p).pending_signals p)) run
              ∙ continue_twice (retired os (cleared s p) process s.machine)
                  (λ m. done (true, after m)) (then_kill fuel (s.processes p).pending_signals p),
          without,
        ),
        inl why,
      )
