-- ===== src/Pmm/Alloc.antt =====
-- `pmm_alloc_frame` and `pmm_free_frame`: first fit, the round trip, and what `null` stands for.
use eitan_os.Base.{
  ℕ, zero, suc, ◌+◌, ◌*◌, ◌/◌, ◌≤◌, ◌<◌, ◌≡◌, ◌≢◌, refl, Bool, true, false, ◌⊎◌, inl, inr, Option,
  some, ◌==◌, arith, Bool-cases, ap, sym, ◌∙◌, if◌then◌else◌, ==_refl, ne→==,
}
use eitan_os.Pmm.{Pmm, frame_size, get_frame, alloc_from, alloc_frame, set_frame, free_frame}
use eitan_os.Pmm.Frames.{IsValid, Sets, capacity, get_frame_inside, set_frame_lem}

-- `i` is the first free frame from `from` on.
pub record FirstFree (s : Pmm) (from i : ℕ) : Type 0 where
  pub after : from ≤ i
  pub free : get_frame s i ≡ some false
  pub earlier : (j : ℕ) → from ≤ j → j < i → get_frame s j ≡ some true

-- What the search for a free frame comes to: the first one, taken, or `null`.
abbrev pub Allocated : Pmm → ℕ → ℕ → Option (ℕ × Pmm) → Type 0
Allocated s from end r =
    ((i : ℕ) × (t : Pmm) × (i < end)
      × FirstFree s from i
      × (r ≡ some (i * frame_size, t))
      × Sets s (λ j. i == j) true t)
    ⊎ (((j : ℕ) → from ≤ j → j < end → get_frame s j ≡ some true) × (r ≡ some (0, s)))

alloc_from-Allocated :
    (n i end : ℕ) (s : Pmm)
    → IsValid s
    → i + n ≡ end
    → end ≤ capacity s
    → Allocated s i end (alloc_from n i s)
unfolding alloc_from
alloc_from-Allocated zero i end s valid e h = inr (λ j p q. absurd (omega arith), refl)
alloc_from-Allocated (suc n) i end s valid e h =
    let (used, g) = get_frame_inside s i (omega arith) in
    split used g (alloc_from-Allocated n (i + 1) end s valid (omega arith) h)
  where
    later :
        (get_frame s i ≡ some true)
        → Allocated s (i + 1) end (alloc_from n (i + 1) s)
        → Allocated s i end (alloc_from (suc n) i s)
    later g (inl (k, t, below, first, run, sets)) = inl (
      k,
      t,
      below,
      record {
        after = omega (arith, first.after);
        free = first.free;
        earlier = λ j p q. elim (Bool-cases (i == j)) [
          | inl same ↦ ground arith
          | inr other ↦ first.earlier j (ground arith) q
        ];
      },
      rw g run,
      sets,
    )
    later g (inr (full, run)) = inr (
      λ j p q. elim (Bool-cases (i == j)) [
        | inl same ↦ ground arith
        | inr other ↦ full j (ground arith) q
      ],
      rw g run,
    )

    split :
        (used : Bool)
        → get_frame s i ≡ some used
        → Allocated s (i + 1) end (alloc_from n (i + 1) s)
        → Allocated s i end (alloc_from (suc n) i s)
    split true g rest = later g rest
    split false g rest =
        let (t, run, sets) = set_frame_lem s i true valid (omega arith) in
        inl (
          i,
          t,
          omega arith,
          record { after = omega arith; free = g; earlier = λ j p q. absurd (omega arith) },
          rw (g, run),
          sets,
        )

-- `pmm_alloc_frame` takes the first free frame below `total_frames` and changes its bit alone; if
-- there is none, it returns `null` and changes nothing.
pub alloc_frame-Allocated : (s : Pmm) → IsValid s → Allocated s 0 s.total_frames (alloc_frame s)
unfolding alloc_frame
alloc_frame-Allocated s valid =
    alloc_from-Allocated s.total_frames 0 s.total_frames s valid (omega arith) valid.covers

-- The frame is free, and no other has changed.
abbrev pub Freed : Pmm → ℕ → Pmm → Type 0
Freed s i t = (get_frame t i ≡ some false) × ((j : ℕ) → j ≢ i → get_frame t j ≡ get_frame s j)

pub free_frame-Freed :
    (s : Pmm) (addr : ℕ)
    → IsValid s
    → addr / frame_size < capacity s
    → (t : Pmm) × (free_frame s addr ≡ some t) × Freed s (addr / frame_size) t
unfolding free_frame
free_frame-Freed s addr valid inside =
    let i = addr / frame_size in
    let (t, run, sets) = set_frame_lem s i false valid inside in
    (
      t,
      run,
      (
        sets.frames i ∙ ap (λ b. if b then some false else get_frame s i) (==_refl i),
        λ j other.
            sets.frames j
            ∙ ap (λ b. if b then some false else get_frame s j)
                (ne→== i j (λ same. other (sym same))),
      ),
    )

-- Freeing the frame that `pmm_alloc_frame` has just returned gives every frame its old state back.
pub free_frame-alloc_frame :
    (s t : Pmm) (addr : ℕ)
    → IsValid s
    → alloc_frame s ≡ some (addr, t)
    → addr ≢ 0
    → (u : Pmm) × (free_frame t addr ≡ some u) × ((j : ℕ) → get_frame u j ≡ get_frame s j)
unfolding free_frame
free_frame-alloc_frame s t addr valid run ne = cases (alloc_frame-Allocated s valid)
  where
    cases :
        Allocated s 0 s.total_frames (alloc_frame s)
        → (u : Pmm) × (set_frame t (addr / frame_size) false ≡ some u)
          × ((j : ℕ) → get_frame u j ≡ get_frame s j)
    cases (inl (i, t', below, first, run', sets)) =
        let et : t ≡ t' = cc in
        let ea : addr ≡ i * frame_size = cc in
        let index : addr / frame_size ≡ i = omega arith in
        let inside : i < capacity t' = omega (arith, sets.size, valid.covers) in
        let (u, go, back) = set_frame_lem t' i false sets.valid inside in
        (u, cc go, λ j. ground (arith, back.frames j, sets.frames j, first.free))
    cases (inr (full, run')) = absurd (ne (cc))
