-- ===== src/Allocator/Malloc.antt =====
-- `malloc_internal` refines first fit.
use mathlib.Core.Path.{subst, sym, ap, ◌∙◌}
use eitan_os.Base.{
  ℕ, zero, suc, ◌+◌, ◌-◌, ◌%◌, ◌^◌, ◌≤◌, ◌<◌, ◌≡◌, ◌≢◌, refl, inl, inr, true, false, Option, none,
  some, List, [], ◌∷◌, ◌==◌, leb, arith, Bool-cases, add64, length,
}
use eitan_os.Allocator.{
  null, Block, Heap, header_size, link, Run, done, request, split_block, take_block, malloc_loop,
  malloc_internal,
}
use eitan_os.Allocator.Spec.{Span, Spaced, Clear, remainder, granted, keep, first_fit}
use eitan_os.Allocator.Spec.Laws.{Spaced-Clear, Fitted, first_fit-Fitted}
use eitan_os.Allocator.Chain.{Chain, Chain-frame, link_of}

-- `h'` is `h` with the block at `a` taken out of the chain behind `prev`.
pub record Took (h h' : Heap) (prev : ℕ) (bs bs' : List Span) (a g : ℕ) : Type 0 where
  pub chain : Chain h'.mem (link_of prev h') bs'
  pub size : (h'.mem a).size ≡ g
  pub head : prev ≢ null → h'.free_list ≡ h.free_list
  pub kept : (h'.mem prev).size ≡ (h.mem prev).size
  pub frame : (x : ℕ) → x ≢ prev → Clear x 1 bs → h'.mem x ≡ h.mem x

-- What the loop makes of the chain behind `prev`, by what first fit makes of its blocks.
abbrev Answer : Heap → ℕ → List Span → Option (Span × List Span) → Run (ℕ × Heap) → Type 0
Answer h prev bs none r = r ≡ done (null, h)
Answer h prev bs (some ((a, g), bs')) r =
    (h' : Heap) × (r ≡ done (a + header_size, h')) × Took h h' prev bs bs' a g

module _ (top n : ℕ) (room : top ≤ 2 ^ 64) (least : 24 ≤ n) where
  split-Chain :
      (h : Heap) (prev lo a s : ℕ) (bs : List Span)
      → prev < lo
      → (h.mem a).size ≡ s
      → Chain h.mem (h.mem a).next bs
      → Spaced top lo ((a, s) ∷ bs)
      → n ≤ s
      → leb 24 (s - n) ≡ true
      → Took h (split_block n prev a h) prev ((a, s) ∷ bs) ((a + n, s - n) ∷ bs) a n
  unfolding split_block
  split-Chain h prev lo a s bs p e c sp fits big =
      let sum : add64 a n ≡ a + n = ground arith in
      let h' : Heap = split_block n prev a h in
      let tail : Chain h'.mem (h.mem a).next bs =
        Chain-frame h.mem h'.mem top (suc (a + s)) (h.mem a).next bs c sp.3
          (λ x q. ground (arith, sum)) in
      let nx : (h'.mem (a + n)).next ≡ (h.mem a).next = ground (arith, sum) in
      record {
        chain = (
          ground (arith, sum),
          ground (arith, sum),
          subst (λ q. Chain h'.mem q bs) (sym nx) tail,
        );
        size = ground arith;
        head = λ q. ground arith;
        kept = ground (arith, sum);
        frame = λ x q out. ground (arith, sum);
      }

  -- The whole block goes: the pointer to it skips it.
  skip-Chain :
      (h : Heap) (prev lo a s : ℕ) (bs : List Span)
      → prev < lo
      → (h.mem a).size ≡ s
      → Chain h.mem (h.mem a).next bs
      → Spaced top lo ((a, s) ∷ bs)
      → Took h (link prev (h.mem a).next h) prev ((a, s) ∷ bs) bs a s
  skip-Chain h prev lo a s bs p e c sp =
      let h' : Heap = link prev (h.mem a).next h in
      let tail : Chain h'.mem (h.mem a).next bs =
        Chain-frame h.mem h'.mem top (suc (a + s)) (h.mem a).next bs c sp.3 (λ x q. ground arith) in
      let nx : link_of prev h' ≡ (h.mem a).next = ground arith in
      record {
        chain = subst (λ q. Chain h'.mem q bs) (sym nx) tail;
        size = ground arith;
        head = λ q. ground arith;
        kept = ground arith;
        frame = λ x q out. ground arith;
      }

  take_Answer :
      (h : Heap) (prev lo a s : ℕ) (bs : List Span)
      → prev < lo
      → (h.mem a).size ≡ s
      → Chain h.mem (h.mem a).next bs
      → Spaced top lo ((a, s) ∷ bs)
      → n ≤ s
      → Answer h prev
          ((a, s) ∷ bs)
          (some ((a, granted n s), remainder n a s bs))
          (done (take_block n prev a h))
  unfolding take_block
  take_Answer h prev lo a s bs p e c sp fits =
      let ptr : add64 a header_size ≡ a + header_size = omega arith in
      elim (Bool-cases (leb 24 (s - n))) [
        | inl big ↦
            rw (big, e, ptr)
              (split_block n prev a h, rw big, split-Chain h prev lo a s bs p e c sp fits big)
        | inr small ↦
            rw (small, e, ptr)
              (link prev (h.mem a).next h, rw small, skip-Chain h prev lo a s bs p e c sp)
      ]

  -- A block that is too small stays in front of what the loop makes of the blocks behind it.
  keep-Answer :
      (h : Heap) (prev lo a s : ℕ) (bs : List Span) (fit : Option (Span × List Span))
      (r : Run (ℕ × Heap))
      → prev < lo
      → link_of prev h ≡ a
      → (h.mem a).size ≡ s
      → Spaced top lo ((a, s) ∷ bs)
      → Answer h a bs fit r
      → Answer h prev ((a, s) ∷ bs) (keep (a, s) fit) r
  keep-Answer h prev lo a s bs none r p l e sp ans = ans
  keep-Answer h prev lo a s bs (some ((b, g), bs')) r p l e sp (h', run, took) =
      let here : (a == null) ≡ false = ground arith in
      let ne : prev ≢ a = λ q. absurd (omega arith) in
      let same : h'.mem prev ≡ h.mem prev = took.frame prev ne (below bs sp.3) in
      let list : h'.free_list ≡ h.free_list = took.head (λ q. absurd (omega arith)) in
      (
        h',
        run,
        record {
          chain = (ground arith, took.kept ∙ e, rw here at took.chain);
          size = took.size;
          head = λ q. list;
          kept = ap Block.size same;
          frame = λ x q out. took.frame x (ground arith) out.1;
        },
      )
    where
      below : (l : List Span) → Spaced top (suc (a + s)) l → Clear prev 1 l
      below l sl = Spaced-Clear top (suc (a + s)) prev 1 l sl (omega arith)

  malloc_loop-Answer :
      (fuel : ℕ) (h : Heap) (prev curr lo : ℕ) (bs : List Span)
      → length bs < fuel
      → prev < lo
      → link_of prev h ≡ curr
      → Chain h.mem curr bs
      → Spaced top lo bs
      → Answer h prev bs (first_fit n bs) (malloc_loop fuel n prev curr h)
  unfolding malloc_loop first_fit
  malloc_loop-Answer zero h prev curr lo bs f p l c sp = absurd (omega arith)
  malloc_loop-Answer (suc fuel) h prev curr lo [] f p l c sp = rw c refl
  malloc_loop-Answer (suc fuel) h prev curr lo ((a, s) ∷ bs) f p l c sp =
      let here : (a == null) ≡ false = ground arith in
      let after =
        malloc_loop-Answer fuel h a (h.mem a).next (suc (a + s)) bs (omega arith) (omega arith)
          (rw here) c.2 sp.3 in
      rw (c.0, here, c.1)
        (elim (Bool-cases (leb n s)) [
          | inl fits ↦ rw fits (take_Answer h prev lo a s bs p c.1 c.2 sp (ground arith))
          | inr small ↦ rw small (
              keep-Answer h prev lo a s bs (first_fit n bs) (malloc_loop fuel n a (h.mem a).next h)
                p (l ∙ c.0) c.1 sp after)
        ])

-- The bytes that `malloc` looks for, while the sum does not wrap: the least multiple of 8 that holds
-- the header and `size` bytes.
pub request_lem :
    (size : ℕ)
    → size + 23 < 2 ^ 64
    → (size + header_size ≤ request size)
      × (request size < size + header_size + 8)
      × (request size % 8 ≡ 0)
unfolding request
request_lem size h = omega arith

-- A heap: its chain of free blocks, sorted, apart, below `top`.
pub record IsHeap (top : ℕ) (h : Heap) (bs : List Span) : Type 0 where
  pub room : top ≤ 2 ^ 64
  pub chain : Chain h.mem h.free_list bs
  pub spaced : Spaced top 1 bs

-- What a call of `malloc_internal` comes to: null with nothing changed where no block is large
-- enough, and otherwise the bytes behind the header of the first fit, whose header has its size, with
-- the other blocks as the new free list and no header changed outside the free blocks.
abbrev pub Mallocated : ℕ → Heap → List Span → Option (Span × List Span) → Run (ℕ × Heap) → Type 0
Mallocated top h bs none r = r ≡ done (null, h)
Mallocated top h bs (some ((a, g), bs')) r =
    (h' : Heap) × (r ≡ done (a + header_size, h'))
    × IsHeap top h' bs'
    × ((h'.mem a).size ≡ g)
    × ((x : ℕ) → x ≢ null → Clear x 1 bs → h'.mem x ≡ h.mem x)

Answer-Mallocated :
    (top n : ℕ) (h : Heap) (bs : List Span) (fit : Option (Span × List Span)) (r : Run (ℕ × Heap))
    → IsHeap top h bs
    → Fitted top 1 n bs fit
    → Answer h null bs fit r
    → Mallocated top h bs fit r
Answer-Mallocated top n h bs none r heap fitted ans = ans
Answer-Mallocated top n h bs (some ((a, g), bs')) r heap fitted (h', run, took) = (
  h',
  run,
  record { room = heap.room; chain = took.chain; spaced = fitted.3 },
  took.size,
  took.frame,
)

-- `malloc_internal` on a heap is first fit on its free blocks, with fuel for one step more than
-- there are blocks.
pub malloc_internal-Mallocated :
    (fuel top : ℕ) (h : Heap) (bs : List Span) (size : ℕ)
    → IsHeap top h bs
    → length bs < fuel
    → 0 < size
    → size + 23 < 2 ^ 64
    → Mallocated top h bs (first_fit (request size) bs) (malloc_internal fuel h size)
unfolding malloc_internal
malloc_internal-Mallocated fuel top h bs size heap f pos small =
    let some_bytes : (size == 0) ≡ false = ground arith in
    let (low, high, unit) = request_lem size small in
    let least : 24 ≤ request size = omega arith in
    rw some_bytes (
      Answer-Mallocated top (request size) h bs (first_fit (request size) bs)
        (malloc_loop fuel (request size) null h.free_list h) heap
        (first_fit-Fitted top (request size) 1 bs (omega arith) heap.spaced)
        (malloc_loop-Answer top (request size) heap.room least fuel h null h.free_list 1 bs f
          (omega arith) refl heap.chain heap.spaced))
