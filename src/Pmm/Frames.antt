-- ===== src/Pmm/Frames.antt =====
-- What `pmm_set_frame` and its loop do to the map from frames to bits.
use eitan_os.Base.{
  ℕ, zero, suc, ◌+◌, ◌*◌, ◌/◌, ◌%◌, ◌≤◌, ◌<◌, ◌≡◌, refl, Bool, ◌&&◌, ◌||◌, ◌∙◌, none, some, length,
  All, get_elem?, set, length-set, get_elem?-set_self, get_elem?-set_ne, get_elem?_inside,
  All-get_elem?, All-set, ◌==◌, leb, ltb, if◌then◌else◌, arith, Bool-cases, ==→eq, ==→ne, inl, inr,
  ◌≢◌, get_elem?_outside,
}
use eitan_os.Base.Faults.{◌>>=◌}
use eitan_os.Pmm.{Pmm, put_bit, test_bit, get_frame, set_frame, set_frames}
use eitan_os.Pmm.Bits.{put_bit-lt, test_bit-put_bit}

-- The number of frames that the bitmap has a bit for.
abbrev pub capacity : Pmm → ℕ
capacity s = 8 * length s.bitmap

-- The bitmap is made of bytes, and has a bit for every frame that the allocator hands out.
pub record IsValid (s : Pmm) : Type 0 where
  pub bytes : All (λ b. b < 256) s.bitmap
  pub covers : s.total_frames ≤ capacity s

-- `t` is `s` with the bits of the frames in `P` set to `v`.
pub record Sets (s : Pmm) (P : ℕ → Bool) (v : Bool) (t : Pmm) : Type 0 where
  pub valid : IsValid t
  pub size : length t.bitmap ≡ length s.bitmap
  pub total : t.total_frames ≡ s.total_frames
  pub frames : (j : ℕ) → get_frame t j ≡ (if P j then some v else get_frame s j)

pub get_frame_inside : (s : Pmm) (i : ℕ) → i < capacity s → (b : Bool) × (get_frame s i ≡ some b)
unfolding get_frame
get_frame_inside s i h =
    let (byte, e) = get_elem?_inside s.bitmap (i / 8) (omega arith) in (test_bit byte (i % 8), rw e)

pub get_frame_outside : (s : Pmm) (i : ℕ) → capacity s ≤ i → get_frame s i ≡ none
unfolding get_frame
get_frame_outside s i h = rw (get_elem?_outside s.bitmap (i / 8) (omega arith))

-- One write of a byte, seen as a write of a bit.
bit_of_set :
    (xs : _) (i j byte : ℕ) (v : Bool)
    → All (λ b. b < 256) xs
    → get_elem? xs (i / 8) ≡ some byte
    → i / 8 < length xs
    → (get_elem? (set xs (i / 8) (put_bit byte (i % 8) v)) (j / 8) >>= λ b.
        some (test_bit b (j % 8)))
      ≡ (if i == j then some v else (get_elem? xs (j / 8) >>= λ b. some (test_bit b (j % 8))))
bit_of_set xs i j byte v all e h = elim (Bool-cases (i / 8 == j / 8)) [
  | inl q ↦ same (==→eq (i / 8) (j / 8) q)
  | inr q ↦
      let ne : i / 8 ≢ j / 8 = ==→ne (i / 8) (j / 8) q in
      rw (get_elem?-set_ne xs (i / 8) (j / 8) (put_bit byte (i % 8) v) ne) (ground arith)
]
  where
    small : byte < 256
    small = All-get_elem? (λ b. b < 256) xs (i / 8) all e

    same :
        i / 8 ≡ j / 8
        → (get_elem? (set xs (i / 8) (put_bit byte (i % 8) v)) (j / 8) >>= λ b.
            some (test_bit b (j % 8)))
          ≡ (if i == j then some v else (get_elem? xs (j / 8) >>= λ b. some (test_bit b (j % 8))))
    same r =
        rw (← r, get_elem?-set_self xs (i / 8) (put_bit byte (i % 8) v) h, e)
          (ground
            (arith, test_bit-put_bit byte (i % 8) (j % 8) v small (omega arith) (omega arith)))

-- `pmm_set_frame` on a frame that the bitmap has a bit for changes that bit alone.
pub set_frame_lem :
    (s : Pmm) (i : ℕ) (v : Bool)
    → IsValid s
    → i < capacity s
    → (t : Pmm) × (set_frame s i v ≡ some t) × Sets s (λ j. i == j) v t
unfolding set_frame get_frame
set_frame_lem s i v valid h =
    let (byte, e) = get_elem?_inside s.bitmap (i / 8) (omega arith) in
    let small : byte < 256 = All-get_elem? (λ b. b < 256) s.bitmap (i / 8) valid.bytes e in
    let size = length-set s.bitmap (i / 8) (put_bit byte (i % 8) v) in
    (
      record s { bitmap = set s.bitmap (i / 8) (put_bit byte (i % 8) v) },
      rw e,
      record {
        valid = record {
          bytes =
              All-set (λ b. b < 256) s.bitmap (i / 8) valid.bytes
                (put_bit-lt byte (i % 8) v small (omega arith));
          covers = omega (arith, valid.covers, size);
        };
        size = size;
        total = refl;
        frames = λ j. bit_of_set s.bitmap i j byte v valid.bytes e (omega arith);
      },
    )

-- The effects of two writes in a row.
pub Sets-trans :
    {s t u : Pmm} {P Q R : ℕ → Bool} {v : Bool}
    → Sets s P v t
    → Sets t Q v u
    → ((j : ℕ) → (P j || Q j) ≡ R j)
    → Sets s R v u
Sets-trans {P} {Q} {R} a b r = record {
  valid = b.valid;
  size = b.size ∙ a.size;
  total = b.total ∙ a.total;
  frames = λ j. ground (arith, a.frames j, b.frames j, r j);
}

-- The loop over `n` frames from `i` on sets exactly those.
pub set_frames_lem :
    (n i : ℕ) (v : Bool) (s : Pmm)
    → IsValid s
    → i + n ≤ capacity s
    → (t : Pmm) × (set_frames n i v s ≡ some t) × Sets s (λ j. leb i j && ltb j (i + n)) v t
unfolding set_frames
set_frames_lem zero i v s valid h =
    (s, refl, record { valid = valid; size = refl; total = refl; frames = λ j. ground arith })
set_frames_lem (suc n) i v s valid h =
    let (t, e, one) = set_frame_lem s i v valid (omega arith) in
    let (u, f, more) = set_frames_lem n (i + 1) v t one.valid (omega (arith, one.size)) in
    (u, rw e f, Sets-trans one more (λ j. ground arith))
