-- ===== src/Scheduler/Find.antt =====
-- The invariant of the scheduler, and the search for a process.
use eitan_os.Base.{
  ℕ, [], ◌^◌, ◌≤◌, ◌<◌, ◌≡◌, ◌≢◌, ◌⊎◌, sym, ap, subst, ◌∙◌, inl, inr, Bool, true, false, List, ◌∷◌,
  ◌++◌, All, All-map, Member, Member-right, here, arith, length, ==→eq, ==→ne,
}
use eitan_os.Allocator.{Run, done}
use eitan_os.Scheduler.{Process, Machine, Scheduler, tested, circle, has_pid, find_process}
use eitan_os.Scheduler.Ring.{Follows, OtherPid, IsLoop, Circled, circle_lem}

-- The circle from the current process holds the kernel's, and numbers are given out in order.
pub record IsValid {M : Type 0} (s : Scheduler M) (ps : List ℕ) : Type 0 where
  pub loop : IsLoop s.processes s.current_process ps
  pub kernel : Member s.kernel_process ps
  pub kernel_pid : (s.processes s.kernel_process).pid ≡ 0
  pub pids : All (λ p. (s.processes p).pid ≤ s.highest_pid) ps
  pub highest : s.highest_pid < 2 ^ 32

abbrev answer : Bool → ℕ → Run (Bool × ℕ)
answer b p = done (b, p)

around :
    (fuel : ℕ) (hit : ℕ → Bool) (procs : ℕ → Process) (a k : ℕ) (ps : List ℕ)
    → IsLoop procs a ps
    → Member k ps
    → length ps ≤ fuel
    → Circled hit a ps (circle fuel hit procs a a)
around fuel hit procs a k [] loop m f = elim m [ ]
around fuel hit procs a k (p ∷ ps) loop m f =
    let (e, path) = loop.path in
    let (one, rest) = loop.distinct in
    subst (λ z. Circled hit a (p ∷ ps) (circle fuel hit procs a z)) (sym e)
      (circle_lem fuel hit procs a p ps path
        (All-map (OtherPid procs p) (λ q. q ≢ a) ps
          (λ q apart same. apart (ap (λ z. (procs z).pid) (same ∙ e))) one)
        (omega (arith, f)))

-- Where the walk of a search may begin and end.
pub searched :
    (fuel : ℕ) (hit : ℕ → Bool) (procs : ℕ → Process) (a k : ℕ) (ps : List ℕ)
    → IsLoop procs a ps
    → Member k ps
    → length ps ≤ fuel
    → ((before : List ℕ) × (q : ℕ) × (after : List ℕ) × (ps ≡ before ++ q ∷ after)
        × (tested hit (circle fuel hit procs a a) ≡ done (true, q))
        × (hit q ≡ true))
      ⊎ (All (λ p. hit p ≡ false) ps × (tested hit (circle fuel hit procs a a) ≡ done (false, a)))
searched fuel hit procs a k ps loop m f = elim (around fuel hit procs a k ps loop m f) [
  | inl (before, q, after, e, meant, run) ↦
      inl (before, q, after, e, ap (tested hit) run ∙ ap (λ b. answer b q) meant, meant)
  | inr (none, run) ↦
      inr (none, ap (tested hit) run ∙ ap (λ b. answer b a) (first ps loop.path m none))
]
  where
    first :
        (qs : List ℕ)
        → Follows procs a qs a
        → Member k qs
        → All (λ p. hit p ≡ false) qs
        → hit a ≡ false
    first [] path m none = elim m [ ]
    first (q ∷ qs) (e, path) m (one, none) = ap hit e ∙ one

module _ {M : Type 0} (os : Machine M) where
  -- A process of the circle has the identifier, or none has it.
  abbrev pub Found : Scheduler M → List ℕ → ℕ → Run (Bool × ℕ) → Type 0
  Found s ps pid r =
      ((p : ℕ) × Member p ps × ((s.processes p).pid ≡ pid) × (r ≡ done (true, p)))
      ⊎ (All (λ p. (s.processes p).pid ≢ pid) ps × (r ≡ done (false, s.current_process)))

  -- With fuel for every process, `find_process` ends: it returns the process of the circle that has the
  -- identifier, or false if none has it.
  pub find_process-Found :
      (fuel pid : ℕ) (s : Scheduler M) (ps : List ℕ)
      → IsValid s ps
      → length ps ≤ fuel
      → Found s ps pid (find_process os fuel pid s)
  unfolding find_process
  find_process-Found fuel pid s ps valid f =
      elim (searched fuel (has_pid s.processes pid) s.processes s.current_process s.kernel_process
        ps valid.loop valid.kernel f) [
          | inl (before, q, after, e, run, meant) ↦ inl (
            q,
            subst (Member q) (sym e) (Member-right q before (q ∷ after) here),
            ==→eq _ _ meant,
            run,
          )
          | inr (none, run) ↦ inr (
            All-map (λ p. has_pid s.processes pid p ≡ false) (λ p. (s.processes p).pid ≢ pid) ps
                (λ p miss. ==→ne _ _ miss) none,
            run,
          )
        ]
