-- ===== src/Scheduler/Send.antt =====
-- `process_scheduler_send_signals` adds to the pending signals of one process.
use eitan_os.Base.{
  ℕ, ◌≤◌, ◌≡◌, ◌≢◌, ◌⊎◌, refl, ap, inl, inr, Bool, List, All, Member, length, bit_or, if◌then◌else◌,
}
use eitan_os.Allocator.{Run, done}
use eitan_os.Scheduler.{Machine, Scheduler, store, continue, send_signals}
use eitan_os.Scheduler.Find.{IsValid, find_process-Found}
use eitan_os.Scheduler.Signals.{IsValid-write}

module _ {M : Type 0} (os : Machine M) where
  abbrev signalled : Scheduler M → ℕ → ℕ → Scheduler M
  signalled s p signals =
      let process = s.processes p in
      record s {
        processes =
            store s.processes p
              (record process { pending_signals = bit_or process.pending_signals signals });
      }

  -- The process that has the identifier has the signals too, or none has it and nothing is done.
  abbrev pub Sent : Scheduler M → List ℕ → ℕ → ℕ → Run (Scheduler M) → Type 0
  Sent s ps pid signals r =
      ((p : ℕ) × Member p ps
        × ((s.processes p).pid ≡ pid)
        × (r ≡ done (signalled s p signals))
        × IsValid (signalled s p signals) ps)
      ⊎ (All (λ p. (s.processes p).pid ≢ pid) ps × (r ≡ done s))

  abbrev deliver : Scheduler M → ℕ → Bool × ℕ → Run (Scheduler M)
  deliver s signals found = if found.0 then done (signalled s found.1 signals) else done s

  -- With fuel for every process, `process_scheduler_send_signals` ends: the process of the circle that has
  -- the identifier has the signals besides those that were pending, all else is as before and the invariant
  -- holds; if no process has the identifier, nothing is changed.
  pub send_signals-Sent :
      (fuel pid signals : ℕ) (s : Scheduler M) (ps : List ℕ)
      → IsValid s ps
      → length ps ≤ fuel
      → Sent s ps pid signals (send_signals os fuel pid signals s)
  unfolding send_signals
  send_signals-Sent fuel pid signals s ps valid f =
      elim (find_process-Found os fuel pid s ps valid f) [
        | inl (p, m, e, run) ↦
            let process = s.processes p in
            let new = record process { pending_signals = bit_or process.pending_signals signals } in
            inl (
              p,
              m,
              e,
              ap (λ r. continue r (deliver s signals)) run,
              IsValid-write s p new ps refl refl valid,
            )
        | inr (absent, run) ↦ inr (absent, ap (λ r. continue r (deliver s signals)) run)
      ]
