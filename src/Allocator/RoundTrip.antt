-- ===== src/Allocator/RoundTrip.antt =====
-- `malloc` and then `free`.
use mathlib.Core.Path.{subst}
use eitan_os.Base.{ℕ, ◌+◌, ◌^◌, ◌<◌, ◌≡◌, ◌≢◌, Option, none, some, List, arith, length}
use eitan_os.Allocator.{null, Heap, header_size, done, request, malloc_internal, free_internal}
use eitan_os.Allocator.Spec.{Span, first_fit}
use eitan_os.Allocator.Spec.Clearance.{NoLonger, first_fit-NoLonger}
use eitan_os.Allocator.Spec.Laws.{Fitted, first_fit-Fitted}
use eitan_os.Allocator.Malloc.{IsHeap, Mallocated, malloc_internal-Mallocated, request_lem}
use eitan_os.Allocator.Free.{free_internal-Freed}

-- A block that is freed right after it was allocated leaves the free list as it was before.
pub free_internal-malloc_internal :
    (fuel fuel' top size p : ℕ) (h h' : Heap) (bs : List Span)
    → IsHeap top h bs
    → length bs < fuel
    → length bs < fuel'
    → 0 < size
    → size + 23 < 2 ^ 64
    → malloc_internal fuel h size ≡ done (p, h')
    → p ≢ null
    → (h'' : Heap) × (free_internal fuel' h' p ≡ done h'') × IsHeap top h'' bs
free_internal-malloc_internal fuel fuel' top size p h h' bs heap f f' pos small run ne =
    let (low, high, unit) = request_lem size small in
    back (first_fit (request size) bs)
      (malloc_internal-Mallocated fuel top h bs size heap f pos small)
      (first_fit-Fitted top (request size) 1 bs (omega arith) heap.spaced) (omega arith)
      (first_fit-NoLonger (request size) bs)
  where
    back :
        (fit : Option (Span × List Span))
        → Mallocated top h bs fit (malloc_internal fuel h size)
        → Fitted top 1 (request size) bs fit
        → header_size < request size
        → NoLonger bs fit
        → (h'' : Heap) × (free_internal fuel' h' p ≡ done h'') × IsHeap top h'' bs
    back none m fitted low l = absurd (ne (cc))
    back (some ((a, g), bs')) (taken, run', heap', header, frame) fitted low l =
        let (h'', go, is, _) =
          free_internal-Freed top taken a g header (omega arith) fitted.1 fitted.2 fuel' bs' heap'
            fitted.4 (omega arith) (omega arith) in
        (h'', cc (run, run', go), subst (IsHeap top h'') fitted.6 is)
