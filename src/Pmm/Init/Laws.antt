-- ===== src/Pmm/Init/Laws.antt =====
-- What `pmm_init` leaves free.
use eitan_os.Base.{
  add64, sub64, ℕ, zero, suc, ◌+◌, ◌*◌, ◌/◌, ◌%◌, ◌^◌, ◌≤◌, ◌<◌, ◌≡◌, ◌≢◌, refl, Bool, true, false,
  ◌&&◌, ◌||◌, not, inl, inr, Option, none, some, List, [], ◌∷◌, ◌++◌, leb, ltb, if◌then◌else◌,
  arith, Bool-cases, All, length, replicate, length-replicate, get_elem?-replicate,
}
use mathlib.Core.Path.{subst, sym, ◌∙◌}
use eitan_os.Base.Faults.{◌>>=◌}
use eitan_os.Pmm.{Pmm, frame_size, get_frame, rounds, set_frames, free_region}
use eitan_os.Pmm.Bits.{test_bit_full}
use eitan_os.Pmm.Frames.{IsValid, Sets, Sets-trans, capacity, set_frames_lem}
use eitan_os.Pmm.Regions.{touches, touches-range, free_region_lem}
use eitan_os.Pmm.Init.{Entry, usable, top_of_ram, place_bitmap, free_usable, bitmap_size, init}

-- The loader's map: no entry reaches past the address space.
abbrev pub Bounded : List Entry → Type 0
Bounded es = All (λ e. e.base + e.length < 2 ^ 64) es

-- Every frame that an entry's freeing touches has a bit.
abbrev pub Within : ℕ → List Entry → Type 0
Within cap es = All (λ e. usable e ≡ true → (e.base + e.length) / frame_size < cap) es

-- The frames that the usable entries touch, the one at the end address included.
pub freed : List Entry → ℕ → Bool
freed [] j = false
freed (e ∷ es) j = (usable e && touches e.base (e.base + e.length) j) || freed es j

free_usable-usable :
    (e : Entry) (es : List Entry) (s : Pmm) {t u : Pmm}
    → usable e ≡ true
    → e.base + e.length < 2 ^ 64
    → free_region s e.base (e.base + e.length) ≡ some t
    → free_usable es t ≡ some u
    → free_usable (e ∷ es) s ≡ some u
unfolding free_usable
free_usable-usable e es s use_it b run rest =
    let same : add64 e.base e.length ≡ e.base + e.length = omega arith in
    rw (use_it, same, run) rest

free_usable-skipped :
    (e : Entry) (es : List Entry) (s : Pmm)
    → usable e ≡ false
    → free_usable (e ∷ es) s ≡ free_usable es s
unfolding free_usable
free_usable-skipped e es s skip = rw skip

-- Freeing the usable entries frees exactly the frames that they touch.
pub free_usable_lem :
    (es : List Entry) (s : Pmm)
    → IsValid s
    → Bounded es
    → Within (capacity s) es
    → (t : Pmm) × (free_usable es s ≡ some t) × Sets s (freed es) false t
unfolding free_usable freed
free_usable_lem [] s valid b w =
    (s, refl, record { valid = valid; size = refl; total = refl; frames = λ j. refl })
free_usable_lem (e ∷ es) s valid b w = elim (Bool-cases (usable e)) [
  | inl use_it ↦
      let (t, run, one) =
        free_region_lem s e.base (e.base + e.length) valid (omega arith) (w.0 use_it) in
      let same : capacity s ≡ capacity t = omega (arith, one.size) in
      let (u, rest, more) =
        free_usable_lem es t one.valid b.1 (subst (λ c. Within c es) same w.1) in
      (u, free_usable-usable e es s use_it b.0 run rest, Sets-trans one more (λ j. rw use_it))
  | inr skip ↦
      let (u, rest, more) = free_usable_lem es s valid b.1 w.1 in
      (
        u,
        free_usable-skipped e es s skip ∙ rest,
        record {
          valid = more.valid;
          size = more.size;
          total = more.total;
          frames = λ j. rw skip (more.frames j);
        },
      )
]

-- The cut map is as good as the map, and the bitmap lies below the end of the address space.
abbrev Fits : ℕ → ℕ → Option (ℕ × List Entry) → Type 0
Fits size cap none = Unit
Fits size cap (some (phys, es)) = Bounded es × Within cap es × (phys + size < 2 ^ 64)

place_bitmap-Fits :
    (size cap : ℕ) (es : List Entry)
    → Bounded es
    → Within cap es
    → Fits size cap (place_bitmap size es)
unfolding place_bitmap
place_bitmap-Fits size cap [] b w = tt
place_bitmap-Fits size cap (e ∷ es) b w = elim (Bool-cases (usable e && leb size e.length)) [
  | inl here ↦ rw here ((ground arith, b.1), (λ u. ground (arith, w.0 u), w.1), ground arith)
  | inr there ↦ rw there (later (place_bitmap size es) (place_bitmap-Fits size cap es b.1 w.1))
]
  where
    later :
        (r : Option (ℕ × List Entry))
        → Fits size cap r
        → Fits size cap (r >>= λ (phys, es'). some (phys, e ∷ es'))
    later none f = tt
    later (some (phys, es')) (b', w', f) = ((b.0, b'), (w.0, w'), f)

-- The frames of the bitmap itself, its end address included.
abbrev pub holds_bitmap : ℕ → ℕ → ℕ → Bool
holds_bitmap phys size j = touches phys (phys + size) j

replicate-bytes : (n : ℕ) → All (λ b. b < 256) (replicate n 0xFF)
replicate-bytes zero = tt
replicate-bytes (suc n) = (omega arith, replicate-bytes n)

filled_frame :
    (n total j : ℕ)
    → j < 8 * n
    → get_frame (record { bitmap = replicate n 0xFF; total_frames = total }) j ≡ some true
unfolding get_frame
filled_frame n total j h =
    rw (
      get_elem?-replicate {A = ℕ} n (j / 8) 0xFF (omega arith),
      test_bit_full (j % 8) (omega arith),
    )

-- `top_of_ram` is at least every usable end.
le-top_of_ram : (top : ℕ) (es : List Entry) → top ≤ top_of_ram top es
unfolding top_of_ram
le-top_of_ram top [] = omega arith
le-top_of_ram top (e ∷ es) =
    ground (arith, le-top_of_ram top es, le-top_of_ram (add64 e.base e.length) es)

top-Within :
    (top cap : ℕ) (es : List Entry)
    → Bounded es
    → top_of_ram top es / frame_size < cap
    → Within cap es
unfolding top_of_ram
top-Within top cap [] b h = tt
top-Within top cap (e ∷ es) b h = (
  λ u.
      let same : add64 e.base e.length ≡ e.base + e.length = omega arith in
      ground (arith, le-top_of_ram top es, le-top_of_ram (e.base + e.length) es),
  top-Within (if usable e && ltb top (add64 e.base e.length) then add64 e.base e.length else top)
      cap es b.1 h,
)

abbrev pub frames_of_ram : List Entry → ℕ
frames_of_ram memmap = top_of_ram 0 memmap / frame_size

abbrev filled : ℕ → Pmm
filled total = record { bitmap = replicate (bitmap_size total) 0xFF; total_frames = total }

-- The run of `pmm_init` from its parts.
init_run :
    (memmap es : List Entry) (hhdm phys : ℕ) {s t : Pmm}
    → let size = bitmap_size (frames_of_ram memmap) in
      hhdm < 2 ^ 64
      → phys + size < 2 ^ 64
      → place_bitmap size memmap ≡ some (phys, es)
      → free_usable es (filled (frames_of_ram memmap)) ≡ some t
      → set_frames
          (rounds (phys / frame_size) ((phys + size) / frame_size))
          (phys / frame_size)
          true
          t
        ≡ some s
      → init memmap hhdm ≡ some (s, es)
unfolding init
init_run memmap es hhdm phys h fits place go put =
    let size = bitmap_size (frames_of_ram memmap) in
    let back : sub64 (add64 phys hhdm) hhdm ≡ phys = omega arith in
    let end : add64 phys size ≡ phys + size = omega arith in rw (place, go, back, end, put)

-- What is known of the frames after `pmm_init`: a frame of the bitmap is in use where it holds the
-- bitmap or where no usable entry touches it.
pub record Ready (memmap es : List Entry) (phys : ℕ) (s : Pmm) : Type 0 where
  pub valid : IsValid s
  pub total : s.total_frames ≡ frames_of_ram memmap
  pub frames :
      (j : ℕ)
      → j < s.total_frames
      → get_frame s j
        ≡ some (holds_bitmap phys (bitmap_size (frames_of_ram memmap)) j || not (freed es j))

-- The three writes that decide one frame.
frame_cases :
    (phys size : ℕ) (free : Bool) (j : ℕ) {last middle first : Option Bool}
    → last ≡ (
        if leb (phys / frame_size) j
          && ltb j (phys / frame_size + rounds (phys / frame_size) ((phys + size) / frame_size))
        then some true
        else middle)
    → middle ≡ (if free then some false else first)
    → first ≡ some true
    → last ≡ some (holds_bitmap phys size j || not free)
frame_cases phys size free j e f g =
    rw (e, f, g, touches-range (phys / frame_size) ((phys + size) / frame_size) j (omega arith))
      (ground arith)

-- On a memory map that does not wrap, whose top frame number is no multiple of 8, `pmm_init` returns
-- once it finds a usable entry for the bitmap, and then a frame below `total_frames` is free exactly
-- if a usable entry touches it and the bitmap does not, where the frame at an end address counts as touched.
pub init-Ready :
    (memmap es : List Entry) (hhdm phys : ℕ)
    → Bounded memmap
    → hhdm < 2 ^ 64
    → frames_of_ram memmap % 8 ≢ 0
    → place_bitmap (bitmap_size (frames_of_ram memmap)) memmap ≡ some (phys, es)
    → (phys + bitmap_size (frames_of_ram memmap)) / frame_size
      < 8 * bitmap_size (frames_of_ram memmap)
    → (s : Pmm) × (init memmap hhdm ≡ some (s, es)) × Ready memmap es phys s
init-Ready memmap es hhdm phys b h top place inside =
    let total : ℕ = frames_of_ram memmap in
    let size : ℕ = bitmap_size total in
    let long : length (replicate size 0xFF) ≡ size = length-replicate {A = ℕ} size 0xFF in
    let fits : Fits size (8 * size) (some (phys, es)) = subst (Fits size (8 * size)) place (
      place_bitmap-Fits size (8 * size) memmap b
        (top-Within 0 (8 * size) memmap b (omega arith))) in
    let valid : IsValid (filled total) = record {
      bytes = replicate-bytes size;
      covers = omega (arith, long);
    } in
    let (t, go, freeing) =
      free_usable_lem es (filled total) valid fits.0
        (subst (λ n. Within (8 * n) es) (sym long) fits.1) in
    let n = rounds (phys / frame_size) ((phys + size) / frame_size) in
    let (s, put, taking) =
      set_frames_lem n (phys / frame_size) true t freeing.valid
        (omega (arith, freeing.size, long)) in
    (
      s,
      init_run memmap es hhdm phys h fits.2 place go put,
      record {
        valid = taking.valid;
        total = taking.total ∙ freeing.total;
        frames = λ j below.
            frame_cases phys size (freed es j) j (taking.frames j) (freeing.frames j)
              (filled_frame size total j (omega (arith, taking.total, freeing.total)));
      },
    )

-- Of a usable entry whose end is the first byte of a frame below `total_frames` which holds no part
-- of the bitmap, that frame is left free, although the entry ends before it.
pub end_frame_free :
    (memmap before after : List Entry) (e : Entry) (phys : ℕ) (s : Pmm)
    → Ready memmap (before ++ (e ∷ after)) phys s
    → usable e ≡ true
    → (e.base + e.length) / frame_size < s.total_frames
    → holds_bitmap phys (bitmap_size (frames_of_ram memmap)) ((e.base + e.length) / frame_size)
      ≡ false
    → get_frame s ((e.base + e.length) / frame_size) ≡ some false
unfolding freed
end_frame_free memmap before after e phys s ready use_it below apart =
    rw (ready.frames ((e.base + e.length) / frame_size) below, apart, freed_mid before) refl
  where
    freed_mid :
        (l : List Entry) → freed (l ++ (e ∷ after)) ((e.base + e.length) / frame_size) ≡ true
    freed_mid [] = rw use_it (ground arith)
    freed_mid (x ∷ l) = ground (arith, freed_mid l)
