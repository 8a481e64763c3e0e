-- ===== src/Pmm/Examples.antt =====
-- The theorems on memory/pmm.c at concrete bitmaps and memory maps.
use eitan_os.Base.{ℕ, ◌*◌, ◌≡◌, refl, some, [], ◌∷◌, arith}
use eitan_os.Pmm.{Pmm, frame_size, set_frame, get_frame, put_bit, test_bit, alloc_frame, free_frame}
use eitan_os.Pmm.Frames.{IsValid}
use eitan_os.Pmm.Alloc.{Allocated, alloc_frame-Allocated, free_frame-alloc_frame}

-- Frames 0, 1, 2 and 8 are in use.
abbrev small : Pmm
small = record { bitmap = 7 ∷ 1 ∷ []; total_frames = 13 }

small-IsValid : IsValid small
small-IsValid = record { bytes = (omega arith, (omega arith, tt)); covers = omega arith }

alloc_small :
    alloc_frame small ≡ some (3 * frame_size, record { bitmap = 15 ∷ 1 ∷ []; total_frames = 13 })
unfolding alloc_frame get_frame set_frame put_bit test_bit
alloc_small = refl

alloc_frame-Allocated_example : Allocated small 0 13 (alloc_frame small)
alloc_frame-Allocated_example = alloc_frame-Allocated small small-IsValid

free_frame-alloc_frame_example :
    (u : Pmm) × (free_frame (record { bitmap = 15 ∷ 1 ∷ []; total_frames = 13 }) (3 * frame_size)
      ≡ some u)
    × ((j : ℕ) → get_frame u j ≡ get_frame small j)
free_frame-alloc_frame_example =
    free_frame-alloc_frame small (record { bitmap = 15 ∷ 1 ∷ []; total_frames = 13 })
      (3 * frame_size) small-IsValid alloc_small (λ e. absurd (omega arith))
