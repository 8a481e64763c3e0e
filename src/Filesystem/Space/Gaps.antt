-- ===== src/Filesystem/Space/Gaps.antt =====
-- filesystem.c: the loop over the files in `find_space_for_file`, in the order of their first sectors.
use eitan_os.Base.{
  ℕ, ◌+◌, ◌-◌, ◌≤◌, ◌<◌, ◌≡◌, ◌≢◌, sym, ap, subst, ◌∙◌, inl, inr, true, ◌==◌, ltb, leb,
  if◌then◌else◌, Bool-cases, List, [], ◌∷◌, All, All-map, All-zip, none, some, arith,
}
use eitan_os.Filesystem.Table.{FileEntry}
use eitan_os.Filesystem.Space.{end_sector, trailing_gap, gap_loop}
use eitan_os.Filesystem.Space.Order.{Pairwise, Rising}
use eitan_os.Filesystem.Space.Placement.{
  Placed, Apart, Clear, Sized, From, Placed-end_sector, Rising-From,
}

some_eq : (m n : ℕ) → some m ≡ some n → m ≡ n
some_eq m n h = ground (arith, h)

module _ (sector_count needed : ℕ) (sized : Sized sector_count) where
  abbrev pub Free : ℕ → ℕ → List FileEntry → Type 0
  Free prev s es = (prev ≤ s) × (s + needed < sector_count) × All (Clear s needed) es

  trailing_lem :
      (prev : ℕ) → prev < sector_count → trailing_gap sector_count prev ≡ sector_count - 1 - prev
  trailing_lem prev h = let (low, high) = sized in omega (arith, h, low, high)

  -- The gap before `e` is chosen.
  chosen :
      (prev : ℕ) (e : FileEntry) (es : List FileEntry)
      → e.size ≢ 0
      → Placed sector_count e
      → From prev e
      → All (Rising Apart e) es
      → leb needed (if ltb prev e.start_sector then e.start_sector - prev else 0) ≡ true
      → Free prev prev (e ∷ es)
  chosen prev e es nonempty placed (inl h) above fits = absurd (nonempty h)
  chosen prev e es nonempty placed (inr after) above fits =
      let room : prev + needed ≤ e.start_sector = ground (arith, after, fits) in
      let (longer, inside, _) = Placed-end_sector sector_count e sized nonempty placed in
      (
        omega arith,
        omega (arith, room, longer, inside),
        (
          inr (inl room),
          All-map (Rising Apart e) (Clear prev needed) es
              (λ f rising. inr (inl (omega (arith, room, rising.0)))) above,
        ),
      )

  pub gap_loop-Free :
      (prev s : ℕ) (es : List FileEntry)
      → prev < sector_count
      → All (Placed sector_count) es
      → Pairwise (Rising Apart) es
      → All (From prev) es
      → gap_loop sector_count needed prev es ≡ some s
      → Free prev s es
  unfolding gap_loop
  gap_loop-Free prev s [] inside placed rising from run =
      let here : prev ≡ s = ground (arith, run) in
      let room : needed ≤ trailing_gap sector_count prev = ground (arith, run) in
      (omega (arith, here), omega (arith, here, room, trailing_lem prev inside, inside), tt)
  gap_loop-Free prev s (e ∷ es) inside (one, placed) (above, rising) (begin, from) run =
      let gap = if ltb prev e.start_sector then e.start_sector - prev else 0 in
      let over = gap_loop sector_count needed prev es in
      let rest = gap_loop sector_count needed (end_sector e) es in
      elim (Bool-cases (e.size == 0)) [
        | inl empty ↦
            let step =
              ap (λ b. if b then over else if leb needed gap then some prev else rest) empty in
            let (low, high, clear) =
              gap_loop-Free prev s es inside placed rising from (sym step ∙ run) in
            (low, high, (inl (ground (arith, empty)), clear))
        | inr full ↦
            let nonempty : e.size ≢ 0 = ground (arith, full) in
            let step =
              ap (λ b. if b then over else if leb needed gap then some prev else rest) full in
            elim (Bool-cases (leb needed gap)) [
              | inl fits ↦
                  let choice = ap (λ b. if b then some prev else rest) fits in
                  subst (λ s. Free prev s (e ∷ es)) (some_eq prev s (sym choice ∙ (sym step ∙ run)))
                    (chosen prev e es nonempty one begin above fits)
              | inr tight ↦
                  let choice = ap (λ b. if b then some prev else rest) tight in
                  let (longer, within, _) = Placed-end_sector sector_count e sized nonempty one in
                  let next =
                    All-zip (Placed sector_count) (Rising Apart e) (From (end_sector e)) es
                      (λ f placed rising. Rising-From sector_count e f sized nonempty placed rising)
                      placed above in
                  let (low, high, clear) =
                    gap_loop-Free (end_sector e) s es within placed rising next
                      (sym choice ∙ (sym step ∙ run)) in
                  let low' : prev ≤ s = ground (arith, begin, longer, low, nonempty) in
                  (low', high, (inr (inr low), clear))
            ]
      ]

  -- If no gap is found, no free sectors were behind `prev`.
  pub gap_loop-none :
      (prev s : ℕ) (es : List FileEntry)
      → prev < sector_count
      → All (Placed sector_count) es
      → prev ≤ s
      → s + needed < sector_count
      → All (Clear s needed) es
      → gap_loop sector_count needed prev es ≢ none
  unfolding gap_loop
  gap_loop-none prev s [] inside placed low high clear run =
      absurd (ground (arith, run, trailing_lem prev inside, low, high))
  gap_loop-none prev s (e ∷ es) inside (one, placed) low high (free, clear) run =
      let gap = if ltb prev e.start_sector then e.start_sector - prev else 0 in
      let over = gap_loop sector_count needed prev es in
      let rest = gap_loop sector_count needed (end_sector e) es in
      elim (Bool-cases (e.size == 0)) [
        | inl empty ↦
            let step =
              ap (λ b. if b then over else if leb needed gap then some prev else rest) empty in
            gap_loop-none prev s es inside placed low high clear (sym step ∙ run)
        | inr full ↦
            let nonempty : e.size ≢ 0 = ground (arith, full) in
            let step =
              ap (λ b. if b then over else if leb needed gap then some prev else rest) full in
            elim (Bool-cases (leb needed gap)) [
              | inl fits ↦
                  let choice = ap (λ b. if b then some prev else rest) fits in
                  absurd (ground (arith, sym choice ∙ (sym step ∙ run)))
              | inr tight ↦
                  let choice = ap (λ b. if b then some prev else rest) tight in
                  let (longer, within, _) = Placed-end_sector sector_count e sized nonempty one in
                  let behind : end_sector e ≤ s = ground (arith, free, nonempty, tight, low) in
                  gap_loop-none (end_sector e) s es within placed behind high clear
                    (sym choice ∙ (sym step ∙ run))
            ]
      ]
