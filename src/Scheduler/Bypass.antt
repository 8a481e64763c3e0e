-- ===== src/Scheduler/Bypass.antt =====
-- The circle of processes without the one behind a process.
use eitan_os.Base.{ℕ, ◌≡◌, refl, sym, ap, subst, ◌∙◌, List, [], ◌∷◌, ◌++◌, All, All-map}
use eitan_os.Scheduler.{Process, store}
use eitan_os.Scheduler.Ring.{
  store_self, store_other, store_field, Follows, Follows-join, OtherPid, Distinct, Distinct-swap,
  IsLoop,
}

module _ (procs procs' : ℕ → Process) where
  pub Follows-keep :
      (a b : ℕ) (ps : List ℕ)
      → All (λ q. (procs' q).next ≡ (procs q).next) ps
      → Follows procs a ps b
      → Follows procs' a ps b
  Follows-keep a b [] same path = path
  Follows-keep a b (p ∷ ps) (e, same) (here_, path) = (
    here_,
    Follows-keep (procs' p).next b ps same (subst (λ z. Follows procs z ps b) (sym e) path),
  )

  pub Distinct-keep :
      (ps : List ℕ)
      → ((q : ℕ) → (procs' q).pid ≡ (procs q).pid)
      → Distinct procs ps
      → Distinct procs' ps
  Distinct-keep [] same d = tt
  Distinct-keep (p ∷ ps) same (one, d) = (
    All-map (OtherPid procs p) (OtherPid procs' p) ps
        (λ q apart e. apart (sym (same q) ∙ e ∙ same p)) one,
    Distinct-keep ps same d,
  )

-- The circle without the process behind `prev`.
abbrev pub bypass : (ℕ → Process) → ℕ → ℕ → ℕ → Process
bypass procs prev next_next = store procs prev (record (procs prev) { next = next_next })

pub bypass-IsLoop :
    (procs : ℕ → Process) (prev process : ℕ) (rest : List ℕ)
    → IsLoop procs prev (prev ∷ process ∷ rest)
    → IsLoop (bypass procs prev (procs process).next) (procs process).next (rest ++ prev ∷ [])
bypass-IsLoop procs prev process rest loop =
    let (e, (e', path)) = loop.path in
    let (one, (two, d)) = loop.distinct in
    let n = (procs process).next in
    let new = record (procs prev) { next = n } in
    let procs' = bypass procs prev n in
    record {
      path =
          Follows-join procs' n prev n rest (prev ∷ [])
            (Follows-keep procs procs' n prev rest
              (All-map (OtherPid procs prev) (λ q. (procs' q).next ≡ (procs q).next) rest
                (λ q apart.
                  ap Process.next
                    (store_other procs prev q new (λ same. apart (ap (λ z. (procs z).pid) same))))
                one.1)
              path)
            (refl, ap Process.next (store_self procs prev new));
      distinct =
          Distinct-keep procs procs' (rest ++ prev ∷ [])
            (store_field Process.pid procs prev new refl)
            (Distinct-swap procs (prev ∷ []) rest (one.1, d));
    }

module _ (procs : ℕ → Process) (P : ℕ → Type 0) where
  -- On a circle, what holds of every successor holds of every process.
  successors :
      (p b : ℕ) (qs : List ℕ)
      → Follows procs (procs p).next qs b
      → All (λ q. P (procs q).next) (p ∷ qs)
      → All P qs × P b
  successors p b [] e (one, all) = (tt, subst P e one)
  successors p b (q ∷ qs) (e, path) (one, all) =
      let (rest, last) = successors q b qs path all in ((subst P e one, rest), last)

  pub all_successors :
      (a : ℕ) (ps : List ℕ) → Follows procs a ps a → All (λ q. P (procs q).next) ps → All P ps
  all_successors a [] path all = tt
  all_successors a (p ∷ qs) (e, path) all =
      let (rest, last) = successors p a qs path all in (subst P e last, rest)
