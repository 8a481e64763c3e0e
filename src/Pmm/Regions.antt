-- ===== src/Pmm/Regions.antt =====
-- `pmm_reserve_region`, `pmm_free_region`, `pmm_reserve_frame`: all or nothing, and exactly the range.
use eitan_os.Base.{
  ℕ, zero, suc, ◌+◌, ◌-◌, ◌/◌, ◌≤◌, ◌<◌, ◌≡◌, refl, Bool, true, false, ◌&&◌, ◌⊎◌, inl, inr, Option,
  none, some, ◌==◌, leb, ltb, arith, Bool-cases, ltb→lt,
}
use eitan_os.Pmm.{
  Pmm, frame_size, get_frame, all_free, rounds, reserve_region, free_region, reserve_frame,
}
use eitan_os.Pmm.Frames.{
  IsValid, Sets, capacity, get_frame_inside, get_frame_outside, set_frame_lem, set_frames_lem,
}

-- What a scan of the frames from `i` up to `end` finds.
abbrev Scanned : Pmm → ℕ → ℕ → Option Bool → Type 0
Scanned s i end r =
    (((j : ℕ) → i ≤ j → j < end → get_frame s j ≡ some false) × (r ≡ some true))
    ⊎ ((j : ℕ) × (i ≤ j) × (j < end) × (get_frame s j ≡ some true) × (r ≡ some false))

all_free-Scanned :
    (n i end : ℕ) (s : Pmm) → i + n ≡ end → end ≤ capacity s → Scanned s i end (all_free n i s)
unfolding all_free
all_free-Scanned zero i end s e h = inl (λ j p q. absurd (omega arith), refl)
all_free-Scanned (suc n) i end s e h =
    let (used, g) = get_frame_inside s i (omega arith) in
    split used g (all_free-Scanned n (i + 1) end s (omega arith) h)
  where
    later :
        (get_frame s i ≡ some false)
        → Scanned s (i + 1) end (all_free n (i + 1) s)
        → Scanned s i end (all_free (suc n) i s)
    later g (inl (free, run)) = inl (
      λ j p q. elim (Bool-cases (i == j)) [
        | inl same ↦ ground arith
        | inr other ↦ free j (ground arith) q
      ],
      rw g run,
    )
    later g (inr (j, p, q, used, run)) = inr (j, omega arith, q, used, rw g run)

    split :
        (used : Bool)
        → get_frame s i ≡ some used
        → Scanned s (i + 1) end (all_free n (i + 1) s)
        → Scanned s i end (all_free (suc n) i s)
    split true g rest = inr (i, omega arith, omega arith, g, rw g)
    split false g rest = later g rest

-- The frames that a region from `start` to `end` touches, its last byte included.
abbrev pub touches : ℕ → ℕ → ℕ → Bool
touches start end j = leb (start / frame_size) j && leb j (end / frame_size)

pub touches-range :
    (a b j : ℕ) → a ≤ b → (leb a j && ltb j (a + (b + 1 - a))) ≡ (leb a j && leb j b)
touches-range a b j h = ground arith

retouch :
    {s t : Pmm} {P Q : ℕ → Bool} {v : Bool} → Sets s P v t → ((j : ℕ) → P j ≡ Q j) → Sets s Q v t
retouch sets same = record {
  valid = sets.valid;
  size = sets.size;
  total = sets.total;
  frames = λ j. ground (arith, sets.frames j, same j);
}

module _ (s : Pmm) (start end : ℕ) (valid : IsValid s) where
  -- All of the region's frames are free and get reserved, or one is in use and nothing changes.
  abbrev pub Reserved : Option (Bool × Pmm) → Type 0
  Reserved r =
      (((j : ℕ) → touches start end j ≡ true → get_frame s j ≡ some false)
        × ((t : Pmm) × (r ≡ some (true, t)) × Sets s (touches start end) true t))
      ⊎ ((j : ℕ) × (touches start end j ≡ true)
          × (get_frame s j ≡ some true)
          × (r ≡ some (false, s)))

  -- `pmm_reserve_region` over frames of the bitmap either finds all of the region's frames free,
  -- reserves exactly those and returns true, or finds one in use, changes nothing and returns false.
  pub reserve_region-Reserved :
      start ≤ end → end / frame_size < capacity s → Reserved (reserve_region s start end)
  unfolding reserve_region
  reserve_region-Reserved h inside =
      cases (all_free-Scanned n first (first + n) s refl (omega arith))
    where
      first : ℕ
      first = start / frame_size

      n : ℕ
      n = rounds first (end / frame_size)

      cases :
          Scanned s first (first + n) (all_free n first s) → Reserved (reserve_region s start end)
      cases (inl (free, run)) =
          let (t, go, sets) = set_frames_lem n first true s valid (omega arith) in
          inl (
            λ j e. free j (ground arith) (ground arith),
            (
              t,
              rw (run, go),
              retouch sets (λ j. touches-range first (end / frame_size) j (omega arith)),
            ),
          )
      cases (inr (j, p, q, used, run)) = inr (j, ground arith, used, rw run)

  -- `pmm_free_region` over frames of the bitmap frees exactly the region's frames.
  pub free_region_lem :
      start ≤ end
      → end / frame_size < capacity s
      → (t : Pmm) × (free_region s start end ≡ some t) × Sets s (touches start end) false t
  unfolding free_region
  free_region_lem h inside =
      let first = start / frame_size in
      let n = rounds first (end / frame_size) in
      let (t, run, sets) = set_frames_lem n first false s valid (omega arith) in
      (t, run, retouch sets (λ j. touches-range first (end / frame_size) j (omega arith)))

-- What `pmm_reserve_frame` comes to: taken, refused, or a read past the bitmap.
abbrev pub TriedFrame : Pmm → ℕ → Option (Bool × Pmm) → Type 0
TriedFrame s i r =
    ((get_frame s i ≡ some false)
      × ((t : Pmm) × (r ≡ some (true, t)) × Sets s (λ j. i == j) true t))
    ⊎ ((get_frame s i ≡ some true) × (r ≡ some (false, s)))
    ⊎ ((capacity s ≤ i) × (r ≡ none))

-- `pmm_reserve_frame` takes the address's frame if it is free and changes its bit alone, refuses it
-- and changes nothing if it is in use, and reads past the bitmap, which the model shows as a fault,
-- if the bitmap has no bit for it.
pub reserve_frame-TriedFrame :
    (s : Pmm) (addr : ℕ) → IsValid s → TriedFrame s (addr / frame_size) (reserve_frame s addr)
unfolding reserve_frame
reserve_frame-TriedFrame s addr valid = elim (Bool-cases (ltb (addr / frame_size) (capacity s))) [
  | inl below ↦
      let inside = ltb→lt _ _ below in
      let (used, g) = get_frame_inside s (addr / frame_size) inside in split used g inside
  | inr beyond ↦
      let far : capacity s ≤ addr / frame_size = ground arith in
      inr (inr (far, rw (get_frame_outside s (addr / frame_size) far)))
]
  where
    split :
        (used : Bool)
        → get_frame s (addr / frame_size) ≡ some used
        → addr / frame_size < capacity s
        → TriedFrame s (addr / frame_size) (reserve_frame s addr)
    split true g inside = inr (inl (g, rw g))
    split false g inside =
        let (t, run, sets) = set_frame_lem s (addr / frame_size) true valid inside in
        inl (g, (t, rw (g, run), sets))
