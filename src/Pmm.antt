-- ===== src/Pmm.antt =====
-- memory/pmm.c: the physical memory manager, one bit for each 4096-byte frame.
pub mod Bits
pub mod Frames
pub mod Alloc
pub mod Regions
pub mod Init
mod Examples
use eitan_os.Base.{
  ℕ, zero, suc, ◌+◌, ◌-◌, ◌*◌, ◌/◌, ◌%◌, ◌^◌, Bool, true, false, Option, none, some, List, [], ◌∷◌,
  ◌==◌, leb, ltb, ◌&&◌, if◌then◌else◌, length, get_elem?, set, replicate, bit_and, bit_or,
}
use eitan_os.Base.Faults.{◌>>=◌}

abbrev pub frame_size : ℕ
frame_size = 4096

-- The file's statics: `pmm_bitmap` as its bytes, and `total_frames`.
pub record Pmm : Type 0 where
  pub bitmap : List ℕ
  pub total_frames : ℕ

-- `byte |= 1 << bit` and `byte &= ~(1 << bit)` on a byte.
pub put_bit : ℕ → ℕ → Bool → ℕ
put_bit byte bit used = if used then bit_or byte (2 ^ bit) else bit_and byte (255 - 2 ^ bit)

-- `(byte >> bit) & 1`
pub test_bit : ℕ → ℕ → Bool
test_bit byte bit = bit_and (byte / 2 ^ bit) 1 == 1

pub set_frame : Pmm → ℕ → Bool → Option Pmm
set_frame s frame used = do
  byte ← get_elem? s.bitmap (frame / 8)
  some (record s { bitmap = set s.bitmap (frame / 8) (put_bit byte (frame % 8) used) })

pub get_frame : Pmm → ℕ → Option Bool
get_frame s frame = do byte ← get_elem? s.bitmap (frame / 8); some (test_bit byte (frame % 8))

-- `for (i = i; i < i + n; i++) if (pmm_get_frame(i)) return false;` and `true` after the last round.
pub all_free : ℕ → ℕ → Pmm → Option Bool
all_free zero i s = some true
all_free (suc n) i s =
    let rest = all_free n (i + 1) s in get_frame s i >>= λ used. if used then some false else rest

-- `for (i = i; i < i + n; i++) pmm_set_frame(i, used);`
pub set_frames : ℕ → ℕ → Bool → Pmm → Option Pmm
set_frames zero i used s = some s
set_frames (suc n) i used s = set_frame s i used >>= set_frames n (i + 1) used

-- `for (i = first; i <= last; i++)` makes this many rounds.
abbrev pub rounds : ℕ → ℕ → ℕ
rounds first last = last + 1 - first

pub reserve_region : Pmm → ℕ → ℕ → Option (Bool × Pmm)
unfolding all_free set_frames
reserve_region s start end = do
  let frame_start = start / frame_size
  let frame_end = end / frame_size
  free ← all_free (rounds frame_start frame_end) frame_start s
  if free
      then (set_frames (rounds frame_start frame_end) frame_start true s >>= λ s'. some (true, s'))
      else some (false, s)

pub free_region : Pmm → ℕ → ℕ → Option Pmm
unfolding set_frames
free_region s start end =
    let frame_start = start / frame_size in
    let frame_end = end / frame_size in
    set_frames (rounds frame_start frame_end) frame_start false s

-- The loop of `pmm_alloc_frame` from frame `i` on, with `n` frames left; 0 is `null`.
pub alloc_from : ℕ → ℕ → Pmm → Option (ℕ × Pmm)
alloc_from zero i s = some (0, s)
alloc_from (suc n) i s =
    let rest = alloc_from n (i + 1) s in
    get_frame s i >>= λ used.
    if used then rest else (set_frame s i true >>= λ s'. some (i * frame_size, s'))

pub alloc_frame : Pmm → Option (ℕ × Pmm)
unfolding alloc_from
alloc_frame s = alloc_from s.total_frames 0 s

pub reserve_frame : Pmm → ℕ → Option (Bool × Pmm)
reserve_frame s addr = do
  used ← get_frame s (addr / frame_size)
  if used then some (false, s) else (set_frame s (addr / frame_size) true >>= λ s'. some (true, s'))

pub free_frame : Pmm → ℕ → Option Pmm
free_frame s addr = set_frame s (addr / frame_size) false

unfoldable pub is_reserved : Pmm → ℕ → Option Bool
is_reserved s addr = get_frame s (addr / frame_size)
