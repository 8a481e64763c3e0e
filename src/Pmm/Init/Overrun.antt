-- ===== src/Pmm/Init/Overrun.antt =====
-- Where `pmm_init` goes one frame too far: `pmm_free_region` takes the end address of a region for
-- part of it.
use mathlib.Core.Path.{◌∙◌, sym, subst}
use eitan_os.Base.{
  add64, ℕ, zero, suc, ◌+◌, ◌-◌, ◌*◌, ◌/◌, ◌%◌, ◌^◌, ◌≤◌, ◌<◌, ◌≡◌, refl, Bool, true, false, ◌&&◌,
  ◌⊎◌, inl, inr, Option, none, some, List, [], ◌∷◌, leb, ltb, if◌then◌else◌, arith, Bool-cases,
  Option-cases, length, replicate, length-replicate, length-set, get_elem?, get_elem?_outside,
}
use eitan_os.Base.Faults.{◌>>=◌}
use eitan_os.Pmm.{Pmm, put_bit, frame_size, set_frame, rounds, set_frames, free_region}
use eitan_os.Pmm.Frames.{capacity}
use eitan_os.Pmm.Init.{Entry, usable, top_of_ram, place_bitmap, free_usable, bitmap_size, init}
use eitan_os.Pmm.Init.Laws.{Bounded, frames_of_ram}

-- A write keeps the length of the bitmap.
abbrev SameSize : Pmm → Option Pmm → Type 0
SameSize s none = Unit
SameSize s (some t) = length t.bitmap ≡ length s.bitmap

set_frame-SameSize : (s : Pmm) (i : ℕ) (v : Bool) → SameSize s (set_frame s i v)
unfolding set_frame
set_frame-SameSize s i v = elim (Option-cases (get_elem? s.bitmap (i / 8))) [
  | inl out ↦ rw out tt
  | inr (b, e) ↦ rw e (length-set s.bitmap (i / 8) (put_bit b (i % 8) v))
]

bind-SameSize :
    (s : Pmm) (m : Option Pmm) (f : Pmm → Option Pmm)
    → SameSize s m
    → ((t : Pmm) → SameSize t (f t))
    → SameSize s (m >>= f)
bind-SameSize s none f h k = tt
bind-SameSize s (some t) f h k = join (f t) (k t)
  where
    join : (r : Option Pmm) → SameSize t r → SameSize s r
    join none p = tt
    join (some u) p = p ∙ h

set_frames-SameSize : (n i : ℕ) (v : Bool) (s : Pmm) → SameSize s (set_frames n i v s)
unfolding set_frames
set_frames-SameSize zero i v s = refl
set_frames-SameSize (suc n) i v s =
    bind-SameSize s (set_frame s i v) (set_frames n (i + 1) v) (set_frame-SameSize s i v)
      (set_frames-SameSize n (i + 1) v)

set_frame_outside : (s : Pmm) (i : ℕ) (v : Bool) → capacity s ≤ i → set_frame s i v ≡ none
unfolding set_frame
set_frame_outside s i v h = rw (get_elem?_outside s.bitmap (i / 8) (omega arith))

-- If every state of the same size makes `f` fault, so does the sequence.
bind-none :
    (s : Pmm) (m : Option Pmm) (f : Pmm → Option Pmm)
    → SameSize s m
    → ((t : Pmm) → length t.bitmap ≡ length s.bitmap → f t ≡ none)
    → (m >>= f) ≡ none
bind-none s none f h k = refl
bind-none s (some t) f h k = k t h

-- The loop faults once it reaches a frame that the bitmap has no bit for.
set_frames_outside :
    (n i : ℕ) (v : Bool) (s : Pmm) → capacity s < i + n → 0 < n → set_frames n i v s ≡ none
unfolding set_frames
set_frames_outside zero i v s h p = absurd (omega arith)
set_frames_outside (suc n) i v s h p = elim (Bool-cases (ltb 0 n)) [
  | inl more ↦
      bind-none s (set_frame s i v) (set_frames n (i + 1) v) (set_frame-SameSize s i v)
        (λ t e. set_frames_outside n (i + 1) v t (omega (arith, e)) (ground arith))
  | inr last ↦ rw (set_frame_outside s i v (ground arith))
]

-- Some usable entry ends at or behind frame `cap`.
abbrev Reaches : ℕ → List Entry → Type 0
Reaches cap [] = ⊥
Reaches cap (e ∷ es) =
    ((usable e ≡ true) × (cap ≤ (e.base + e.length) / frame_size)) ⊎ Reaches cap es

free_region_overruns :
    (s : Pmm) (start end : ℕ)
    → start ≤ end
    → capacity s ≤ end / frame_size
    → free_region s start end ≡ none
unfolding free_region
free_region_overruns s start end h out =
    set_frames_outside (rounds (start / frame_size) (end / frame_size)) (start / frame_size) false s
      (omega arith) (omega arith)

free_region-SameSize : (s : Pmm) (start end : ℕ) → SameSize s (free_region s start end)
unfolding free_region
free_region-SameSize s start end =
    set_frames-SameSize (rounds (start / frame_size) (end / frame_size)) (start / frame_size) false
      s

free_usable_overruns :
    (es : List Entry) (s : Pmm) → Bounded es → Reaches (capacity s) es → free_usable es s ≡ none
unfolding free_usable
free_usable_overruns [] s b h = elim h [ ]
free_usable_overruns (e ∷ es) s b (inl (use_it, far)) =
    let same : add64 e.base e.length ≡ e.base + e.length = omega arith in
    rw (use_it, same, free_region_overruns s e.base (e.base + e.length) (omega arith) far)
free_usable_overruns (e ∷ es) s b (inr later) =
    bind-none s (if usable e then free_region s e.base (add64 e.base e.length) else some s)
      (free_usable es) (kept (usable e))
      (λ t same. free_usable_overruns es t b.1 (subst (λ n. Reaches (8 * n) es) (sym same) later))
  where
    kept :
        (u : Bool) → SameSize s (if u then free_region s e.base (add64 e.base e.length) else some s)
    kept true = free_region-SameSize s e.base (add64 e.base e.length)
    kept false = refl

-- Placing the bitmap keeps the ends of the entries.
abbrev KeepsEnds : ℕ → List Entry → Option (ℕ × List Entry) → Type 0
KeepsEnds cap es none = Unit
KeepsEnds cap es (some (phys, es')) = Bounded es' × (Reaches cap es → Reaches cap es')

place_bitmap-KeepsEnds :
    (size cap : ℕ) (es : List Entry) → Bounded es → KeepsEnds cap es (place_bitmap size es)
unfolding place_bitmap
place_bitmap-KeepsEnds size cap [] b = tt
place_bitmap-KeepsEnds size cap (e ∷ es) b = elim (Bool-cases (usable e && leb size e.length)) [
  | inl here ↦ rw here ((ground arith, b.1), cut (ground arith) (ground arith))
  | inr there ↦ rw there (later (place_bitmap size es) (place_bitmap-KeepsEnds size cap es b.1))
]
  where
    cut :
        size ≤ e.length
        → e.base + size < 2 ^ 64
        → Reaches cap (e ∷ es)
        → Reaches cap (record e { base = add64 e.base size; length = e.length - size } ∷ es)
    cut small low (inl (u, far)) = inl (
      u,
      let same : add64 e.base size + (e.length - size) ≡ e.base + e.length = omega arith in
          rw same far,
    )
    cut small low (inr r) = inr r

    later :
        (r : Option (ℕ × List Entry))
        → KeepsEnds cap es r
        → KeepsEnds cap (e ∷ es) (r >>= λ (phys, es'). some (phys, e ∷ es'))
    later none k = tt
    later (some (phys, es')) (b', k) = ((b.0, b'), put k)
      where
        put : (Reaches cap es → Reaches cap es') → Reaches cap (e ∷ es) → Reaches cap (e ∷ es')
        put k (inl x) = inl x
        put k (inr r) = inr (k r)

-- The top of RAM is the end of a usable entry.
top-Reaches :
    (top cap : ℕ) (es : List Entry)
    → Bounded es
    → cap ≤ top_of_ram top es / frame_size
    → (cap ≤ top / frame_size) ⊎ Reaches cap es
unfolding top_of_ram
top-Reaches top cap [] b h = inl h
top-Reaches top cap (e ∷ es) b h = elim (Bool-cases (usable e && ltb top (add64 e.base e.length))) [
  | inl taken ↦ from_limit taken (top-Reaches (add64 e.base e.length) cap es b.1 (rw taken at h))
  | inr left ↦ widen (top-Reaches top cap es b.1 (rw left at h))
]
  where
    from_limit :
        (usable e && ltb top (add64 e.base e.length)) ≡ true
        → (cap ≤ add64 e.base e.length / frame_size) ⊎ Reaches cap es
        → (cap ≤ top / frame_size) ⊎ Reaches cap (e ∷ es)
    from_limit taken (inl far) =
        let same : add64 e.base e.length ≡ e.base + e.length = omega (arith, b.0) in
        inr (inl (ground arith, rw same at far))
    from_limit taken (inr r) = inr (inr r)

    widen :
        (cap ≤ top / frame_size) ⊎ Reaches cap es → (cap ≤ top / frame_size) ⊎ Reaches cap (e ∷ es)
    widen (inl far) = inl far
    widen (inr r) = inr (inr r)

-- If the frames of RAM are a positive multiple of 8, the bitmap has no bit for the frame at the end of RAM:
-- where the bitmap has found its place, the loop that frees the usable entries writes behind it, from the
-- bitmap that `pmm_init` has filled, and so `pmm_init` does.
pub init_overruns :
    (memmap es : List Entry) (hhdm phys : ℕ)
    → Bounded memmap
    → frames_of_ram memmap % 8 ≡ 0
    → 0 < frames_of_ram memmap
    → place_bitmap (bitmap_size (frames_of_ram memmap)) memmap ≡ some (phys, es)
    → (free_usable es (record {
      bitmap = replicate (bitmap_size (frames_of_ram memmap)) 0xFF;
      total_frames = frames_of_ram memmap;
    })
        ≡ none)
      × (init memmap hhdm ≡ none)
unfolding init
init_overruns memmap es hhdm phys b whole some_ram placed =
    let (b', keeps) =
      subst (KeepsEnds cap memmap) placed (place_bitmap-KeepsEnds size cap memmap b) in
    let over =
      free_usable_overruns es
        (record { bitmap = replicate size 0xFF; total_frames = frames_of_ram memmap }) b'
        (subst (λ n. Reaches (8 * n) es) (sym long)
          (keeps (reaches (top-Reaches 0 cap memmap b (omega arith))))) in
    (over, rw placed (rw over refl))
  where
    size : ℕ
    size = bitmap_size (frames_of_ram memmap)

    cap : ℕ
    cap = 8 * size

    long : length {A = ℕ} (replicate size 0xFF) ≡ size
    long = length-replicate {A = ℕ} size 0xFF

    reaches : (cap ≤ 0 / frame_size) ⊎ Reaches cap memmap → Reaches cap memmap
    reaches (inl far) = absurd (omega arith)
    reaches (inr r) = r
