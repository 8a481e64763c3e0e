-- ===== src/Allocator/Examples.antt =====
-- The theorems on memory/allocator.c at a small heap.
use eitan_os.Base.{ℕ, ◌-◌, ◌^◌, ◌≤◌, ◌≡◌, refl, List, [], ◌∷◌, ◌==◌, if◌then◌else◌, arith, add64}
use eitan_os.Allocator.{
  Block, Heap, header_size, done, request, split_block, take_block, malloc_loop, malloc_internal,
  free_internal,
}
use eitan_os.Allocator.Spec.{Span, first_fit, give}
use eitan_os.Allocator.Malloc.{IsHeap, Mallocated, malloc_internal-Mallocated}
use eitan_os.Allocator.Free.{Freed, free_internal-Freed}
use eitan_os.Allocator.Owned.{
  IsOwned, Grown, here, there, malloc_internal-IsOwned, free_internal-IsOwned,
}
use eitan_os.Allocator.RoundTrip.{free_internal-malloc_internal}
use eitan_os.Allocator.Overflow.{malloc_internal_wraps}

-- Free blocks at 0x1000 and 0x1100; the client holds 0x1040 and, 32 bytes on, 0x1060.
abbrev headers : ℕ → Block
headers p =
    if p == 0x1000
    then record { size = 64; next = 0x1100 }
    else if p == 0x1040
    then record { size = 32; next = 0 }
    else if p == 0x1060
    then record { size = 160; next = 0 }
    else if p == 0x1100
    then record { size = 256; next = 0 }
    else record { size = 0; next = 0 }

abbrev heap : Heap
heap = record { free_list = 0x1000; mem = headers }

abbrev blocks : List Span
blocks = (0x1000, 64) ∷ (0x1100, 256) ∷ []

abbrev live : List Span
live = (0x1040, 32) ∷ (0x1060, 160) ∷ []

heap-IsHeap : IsHeap 0x1200 heap blocks
heap-IsHeap = record {
  room = omega arith;
  chain = (refl, refl, (refl, refl, refl));
  spaced = omega arith;
}

heap-IsOwned : IsOwned 0x1200 heap blocks live
heap-IsOwned = record {
  heap = heap-IsHeap;
  held = (
    (omega arith, omega arith, omega arith, refl, omega arith),
    ((omega arith, omega arith, omega arith, refl, omega arith), tt),
  );
  apart = omega arith;
}

malloc_internal-Mallocated_example :
    Mallocated 0x1200 heap blocks (first_fit (request 100) blocks) (malloc_internal 3 heap 100)
malloc_internal-Mallocated_example =
    malloc_internal-Mallocated 3 0x1200 heap blocks 100 heap-IsHeap (omega arith) (omega arith)
      (omega arith)

malloc_internal-IsOwned_example : Grown 0x1200 100 heap blocks live (malloc_internal 3 heap 100)
malloc_internal-IsOwned_example =
    malloc_internal-IsOwned 3 0x1200 100 heap blocks live heap-IsOwned (omega arith) (omega arith)
      (omega arith)

free_internal-Freed_example : Freed 0x1200 heap blocks (0x1040, 32) (free_internal 3 heap 0x1050)
free_internal-Freed_example =
    free_internal-Freed 0x1200 heap 0x1040 32 refl (omega arith) (omega arith) (omega arith) 3
      blocks heap-IsHeap (omega arith) (omega arith) (omega arith)

free_internal-IsOwned_example :
    (h' : Heap) × (free_internal 3 heap 0x1070 ≡ done h')
    × IsOwned 0x1200 h' (give (0x1060, 160) blocks) ((0x1040, 32) ∷ [])
free_internal-IsOwned_example =
    free_internal-IsOwned 3 0x1200 0x1060 160 heap blocks live ((0x1040, 32) ∷ []) heap-IsOwned
      (there here) (omega arith)

-- The first block has no room for 100 bytes; the second is split.
allocated : malloc_internal 3 heap 100 ≡ done (0x1110, split_block 120 0x1000 0x1100 heap)
unfolding malloc_internal malloc_loop take_block request
allocated = refl

free_internal-malloc_internal_example :
    (h'' : Heap) × (free_internal 3 (split_block 120 0x1000 0x1100 heap) 0x1110 ≡ done h'')
    × IsHeap 0x1200 h'' blocks
free_internal-malloc_internal_example =
    free_internal-malloc_internal 3 3 0x1200 100 0x1110 heap (split_block 120 0x1000 0x1100 heap)
      blocks heap-IsHeap (omega arith) (omega arith) (omega arith) (omega arith) allocated
      (λ e. absurd (omega arith))

-- `malloc((size_t)-1)` succeeds.
malloc_internal_wraps_example :
    (request (2 ^ 64 - 1) ≤ 16)
    × ((h' : Heap) × (malloc_internal 3 heap (2 ^ 64 - 1) ≡ done (add64 0x1000 header_size, h')))
malloc_internal_wraps_example =
    malloc_internal_wraps 2 0x1200 (2 ^ 64 - 1) 0x1000 64 heap ((0x1100, 256) ∷ []) heap-IsHeap
      (omega arith) (omega arith) (omega arith)
