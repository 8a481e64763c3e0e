-- ===== src/Scheduler/Turns.antt =====
-- Whose turn it is: the step relation of the loop in `process_scheduler_next_process`, and runs that retire
-- processes on their way.
use eitan_os.Base.{
  ◌⊎◌, ℕ, zero, suc, ◌≤◌, ◌≡◌, ◌≢◌, sym, ap, ◌∙◌, inl, inr, ◌==◌, ==→eq, ==→ne, Bool-cases, List,
  [], ◌∷◌, ◌++◌, Member, Member-right, Member-left, here, there, Rotated, All-Member, append_nil,
  subst, bit_and, length, length-append, arith,
}
use eitan_os.Allocator.{Run, done}
use eitan_os.Scheduler.{Process, Machine, Scheduler, continue, continue_twice, sig_abrt, sig_kill}
use eitan_os.Scheduler.Ring.{OtherPid, Distinct}
use eitan_os.Scheduler.Remove.{retired}

-- A process is killed in its turn if it is not the kernel's and SIGABRT or SIGKILL is pending.
abbrev pub Doomed : (ℕ → Process) → ℕ → Type 0
Doomed procs p =
    let sigs = (procs p).pending_signals in
    ((procs p).pid ≢ 0) × ((bit_and sigs sig_abrt ≢ 0) ⊎ (bit_and sigs sig_kill ≢ 0))

abbrev pub Spared : (ℕ → Process) → ℕ → Type 0
Spared procs p =
    let sigs = (procs p).pending_signals in
    ((bit_and sigs sig_abrt ≡ 0) × (bit_and sigs sig_kill ≡ 0)) ⊎ ((procs p).pid ≡ 0)

-- `Turn procs ps killed left`: on the circle `ps`, begun at the process whose turn it is, those of `killed` are
-- killed, and the one that `left` begins with is gone on with. Behind a process that is killed, its successor
-- is passed over.
pub data Turn (procs : ℕ → Process) : List ℕ → List ℕ → List ℕ → Type 0 where
  stays : {p : ℕ} {ps : List ℕ} → Spared procs p → Turn procs (p ∷ ps) [] (p ∷ ps)
  dies :
      {p q : ℕ} {ps killed left : List ℕ}
      → Doomed procs p
      → Turn procs (ps ++ q ∷ []) killed left
      → Turn procs (p ∷ q ∷ ps) (p ∷ killed) left

pub fate : (procs : ℕ → Process) (p : ℕ) → Spared procs p ⊎ Doomed procs p
fate procs p =
    let sigs = (procs p).pending_signals in
    elim (Bool-cases ((procs p).pid == 0)) [
      | inl kernel ↦ inl (inr (==→eq (procs p).pid 0 kernel))
      | inr other ↦
          let nonzero = ==→ne (procs p).pid 0 other in
          elim (Bool-cases (bit_and sigs sig_abrt == 0)) [
            | inr aborted ↦ inr (nonzero, inl (==→ne (bit_and sigs sig_abrt) 0 aborted))
            | inl calm ↦ elim (Bool-cases (bit_and sigs sig_kill == 0)) [
              | inr killed ↦ inr (nonzero, inr (==→ne (bit_and sigs sig_kill) 0 killed))
              | inl spared ↦ inl (
                  inl
                    (==→eq (bit_and sigs sig_abrt) 0 calm, ==→eq (bit_and sigs sig_kill) 0 spared))
            ]
          ]
    ]

not_first :
    (procs : ℕ → Process) (k p : ℕ) (qs : List ℕ)
    → Member k (p ∷ qs)
    → (procs k).pid ≡ 0
    → (procs p).pid ≢ 0
    → Member k qs
not_first procs k p qs here kernel other = absurd (other kernel)
not_first procs k p qs (there m) kernel other = m

turned : (k q : ℕ) (qs : List ℕ) → Member k (q ∷ qs) → Member k (qs ++ q ∷ [])
turned k q qs here = Member-right q qs (q ∷ []) here
turned k q qs (there m) = Member-left k qs (q ∷ []) m

-- A circle that holds the kernel's process has someone to go on with.
pub Turn-exists :
    (procs : ℕ → Process) (n k : ℕ) (ps : List ℕ)
    → length ps ≤ n
    → Member k ps
    → (procs k).pid ≡ 0
    → (killed : List ℕ) × (left : List ℕ) × Turn procs ps killed left
Turn-exists procs n k [] small m kernel = elim m [ ]
Turn-exists procs zero k (p ∷ ps) small m kernel = absurd (omega (arith, small))
Turn-exists procs (suc n) k (p ∷ ps) small m kernel = elim (fate procs p) [
  | inl spared ↦ ([], p ∷ ps, stays spared)
  | inr doomed ↦
      next (λ q qs short m. Turn-exists procs n k (qs ++ q ∷ []) short m kernel) ps small m doomed
]
  where
    next :
        ((q : ℕ) (qs : List ℕ)
          → length (qs ++ q ∷ []) ≤ n
          → Member k (qs ++ q ∷ [])
          → (killed : List ℕ) × (left : List ℕ) × Turn procs (qs ++ q ∷ []) killed left)
        → (ps : List ℕ) → length (p ∷ ps) ≤ suc n
        → Member k (p ∷ ps)
        → Doomed procs p
        → (killed : List ℕ) × (left : List ℕ) × Turn procs (p ∷ ps) killed left
    next again [] small m doomed = elim (not_first procs k p [] m kernel doomed.0) [ ]
    next again (q ∷ qs) small m doomed =
        let (killed, left, turn) =
          again q qs (omega (arith, length-append qs (q ∷ []), small))
            (turned k q qs (not_first procs k p (q ∷ qs) m kernel doomed.0)) in
        (p ∷ killed, left, dies doomed turn)

abbrev pub first : ℕ → List ℕ → ℕ
first x [] = x
first x (p ∷ ps) = p

abbrev pub behind : List ℕ → List ℕ
behind [] = []
behind (p ∷ ps) = ps

-- A rotation that begins with the same number begins at the same place.
pub same_start :
    (procs : ℕ → Process) (p q : ℕ) (ps qs : List ℕ)
    → Distinct procs (p ∷ ps)
    → Rotated (p ∷ ps) (q ∷ qs)
    → (procs q).pid ≡ (procs p).pid
    → (q ∷ qs) ≡ (p ∷ ps)
same_start procs p q ps qs distinct ([], b, e, e') same = e' ∙ append_nil b ∙ sym e
same_start procs p q ps qs distinct (x ∷ a, [], e, e') same = e' ∙ sym (append_nil (x ∷ a)) ∙ sym e
same_start procs p q ps qs (apart, d) (x ∷ a, y ∷ b, e, e') same = absurd (
    All-Member (OtherPid procs p) y ps apart
      (subst (Member y) (sym (ap behind e)) (Member-right y a (y ∷ b) here))
      (ap (λ z. (procs z).pid) (sym (ap (first 0) e')) ∙ same))

module _ {M : Type 0} (os : Machine M) where
  -- The run discards and frees the processes of `killed`, one after another from the machine's state `m`, and
  -- whatever state that leaves the machine in, it comes to a result with `Q`.
  abbrev pub Retires : {B : Type 0} → Scheduler M → List ℕ → M → (M → B → Type 0) → Run B → Type 0
  Retires {B} s [] m Q r = (b : B) × (r ≡ done b) × Q m b
  Retires {B} s (p ∷ killed) m Q r =
      (next : M → Run B) × (r ≡ continue (retired os s p m) next)
      × ((m' : M) → Retires s killed m' Q (next m'))

  pub Retires-map :
      {B C : Type 0} (s : Scheduler M) (killed : List ℕ) (m : M) (Q : M → B → Type 0)
      (Q' : M → C → Type 0) (f : B → C) (r : Run B)
      → ((m : M) (b : B) → Q m b → Q' m (f b))
      → Retires s killed m Q r
      → Retires s killed m Q' (continue r (λ b. done (f b)))
  Retires-map s [] m Q Q' f r h (b, run, q) =
      (f b, ap (λ r. continue r (λ b. done (f b))) run, h m b q)
  Retires-map s (p ∷ killed) m Q Q' f r h (next, run, rest) = (
    λ m'. continue (next m') (λ b. done (f b)),
    ap (λ r. continue r (λ b. done (f b))) run
        ∙ continue_twice (retired os s p m) next (λ b. done (f b)),
    λ m'. Retires-map s killed m' Q Q' f (next m') h (rest m'),
  )
