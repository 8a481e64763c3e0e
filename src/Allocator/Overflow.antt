-- ===== src/Allocator/Overflow.antt =====
-- Requests near the end of `size_t`, for which `ALIGN_UP(size + sizeof(block_t))` wraps round.
use mathlib.Core.Path.{ap, ◌∙◌}
use eitan_os.Base.{ℕ, suc, ◌+◌, ◌^◌, ◌≤◌, ◌<◌, ◌≡◌, List, ◌∷◌, arith, ◌==◌, leb, false, true, add64}
use eitan_os.Allocator.{
  null, Heap, header_size, done, request, take_block, malloc_loop, malloc_internal,
}
use eitan_os.Allocator.Spec.{Span}
use eitan_os.Allocator.Malloc.{IsHeap}

request_wraps : (size : ℕ) → 2 ^ 64 ≤ size + 23 → size < 2 ^ 64 → request size ≤ 16
unfolding request
request_wraps size high low = omega arith

take_block-ptr : (n prev a : ℕ) (h : Heap) → (take_block n prev a h).0 ≡ add64 a header_size
unfolding take_block
take_block-ptr n prev a h = ground arith

-- For the last 23 sizes of `size_t`, on any heap whose first free block has at least 16 bytes,
-- `malloc_internal` asks for 16 bytes at most and returns a pointer into that first block.
pub malloc_internal_wraps :
    (fuel top size a s : ℕ) (h : Heap) (bs : List Span)
    → IsHeap top h ((a, s) ∷ bs)
    → 16 ≤ s
    → 2 ^ 64 ≤ size + 23
    → size < 2 ^ 64
    → (request size ≤ 16)
      × ((h' : Heap) × (malloc_internal (suc fuel) h size ≡ done (add64 a header_size, h')))
unfolding malloc_internal malloc_loop
malloc_internal_wraps fuel top size a s h bs heap big high low =
    let small = request_wraps size high low in
    let some_bytes : (size == 0) ≡ false = ground arith in
    let here : (h.free_list == null) ≡ false = ground arith in
    let fits : leb (request size) (h.mem h.free_list).size ≡ true =
      rw (heap.chain.0, heap.chain.1) (ground arith) in
    let first : malloc_internal (suc fuel) h size
        ≡ done (take_block (request size) null h.free_list h) =
      rw (some_bytes, here, fits) in
    let ptr : (take_block (request size) null h.free_list h).0 ≡ add64 a header_size =
      take_block-ptr (request size) null h.free_list h
      ∙ ap (λ q. add64 q header_size) heap.chain.0 in
    (
      small,
      (
        (take_block (request size) null h.free_list h).1,
        first ∙ ap (λ p. done (p, (take_block (request size) null h.free_list h).1)) ptr,
      ),
    )
