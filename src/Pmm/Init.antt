-- ===== src/Pmm/Init.antt =====
-- `pmm_init` of memory/pmm.c, over the memory map and the higher-half offset that the boot loader
-- hands over.
pub mod Laws
pub mod Overrun
mod Examples
use Prim.Native.Nat.{max}
use eitan_os.Base.{
  add64, sub64, ℕ, ◌+◌, ◌-◌, ◌*◌, ◌/◌, ◌%◌, ◌^◌, Bool, true, false, Option, none, some, List, [],
  ◌∷◌, ◌==◌, leb, ltb, ◌&&◌, if◌then◌else◌, replicate,
}
use eitan_os.Base.Faults.{◌>>=◌}
use eitan_os.Pmm.{Pmm, frame_size, rounds, set_frames, free_region}

-- `struct limine_memmap_entry`; type 0 is LIMINE_MEMMAP_USABLE.
pub record Entry : Type 0 where
  pub base : ℕ
  pub length : ℕ
  pub type : ℕ

abbrev pub usable : Entry → Bool
usable e = e.type == 0

pub top_of_ram : ℕ → List Entry → ℕ
top_of_ram top [] = top
top_of_ram top (e ∷ es) =
    let limit = add64 e.base e.length in
    top_of_ram (if usable e && ltb top limit then limit else top) es

-- The first usable entry that holds the bitmap: where the bitmap goes, and the map with that entry
-- cut at its front. With none the pointer stays null, and the fill that follows faults.
pub place_bitmap : ℕ → List Entry → Option (ℕ × List Entry)
place_bitmap size [] = none
place_bitmap size (e ∷ es) =
    let rest = (place_bitmap size es >>= λ (phys, es'). some (phys, e ∷ es')) in
    if usable e && leb size e.length
    then some (e.base, record e { base = add64 e.base size; length = e.length - size } ∷ es)
    else rest

pub free_usable : List Entry → Pmm → Option Pmm
free_usable [] s = some s
free_usable (e ∷ es) s = do
  s' ← (if usable e then free_region s e.base (add64 e.base e.length) else some s)
  free_usable es s'

abbrev pub bitmap_size : ℕ → ℕ
bitmap_size total_frames = (total_frames + 7) / 8

-- `pmm_init` from the fill of the placed bitmap on.
pub init_bitmap : ℕ → ℕ → ℕ × List Entry → Option (Pmm × List Entry)
init_bitmap total_frames hhdm_offset (phys, memmap) = do
  let size = bitmap_size total_frames
  let pmm_bitmap = add64 phys hhdm_offset
  let filled : Pmm = record { bitmap = replicate size 0xFF; total_frames = total_frames }
  freed ← free_usable memmap filled
  let bitmap_phys = sub64 pmm_bitmap hhdm_offset
  let frame_start = bitmap_phys / frame_size
  let frame_end = add64 bitmap_phys size / frame_size
  s ← set_frames (rounds frame_start frame_end) frame_start true freed
  some (s, memmap)

-- The whole of `pmm_init` less its messages: the state, and the memory map as it leaves it.
pub init : List Entry → ℕ → Option (Pmm × List Entry)
unfolding init_bitmap
init memmap hhdm_offset =
    let total_frames = top_of_ram 0 memmap / 4096 in
    place_bitmap (bitmap_size total_frames) memmap >>= init_bitmap total_frames hhdm_offset
