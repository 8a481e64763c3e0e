-- ===== src/Allocator/Owned.antt =====
-- What a client owns: blocks that `malloc` has handed out and `free` has not taken back. They share no
-- byte with one another or with the free blocks.
use mathlib.Core.Path.{ap, ◌∙◌}
use eitan_os.Base.{
  ℕ, ◌+◌, ◌^◌, ◌≤◌, ◌<◌, ◌≡◌, ◌≢◌, ◌⊎◌, inl, inr, Option, none, some, List, [], ◌∷◌, arith, All,
  length,
}
use eitan_os.Allocator.{
  null, Block, Heap, header_size, Run, done, request, malloc_internal, free_internal,
}
use eitan_os.Allocator.Spec.{Span, Clear, first_fit, give}
use eitan_os.Allocator.Spec.Clearance.{Shrinks, first_fit-Shrinks, give-Clear}
use eitan_os.Allocator.Spec.Laws.{Fitted, first_fit-Fitted}
use eitan_os.Allocator.Malloc.{IsHeap, Mallocated, malloc_internal-Mallocated, request_lem}
use eitan_os.Allocator.Free.{free_internal-Freed}

-- No two of the blocks share a byte.
abbrev pub Apart : List Span → Type 0
Apart [] = Unit
Apart ((a, g) ∷ bs) = Clear a g bs × Apart bs

-- A block that was handed out: its header has its size, and it is clear of the free blocks.
abbrev pub Held : ℕ → Heap → List Span → Span → Type 0
Held top h bs (a, g) =
    (0 < a) × (header_size < g) × (a + g ≤ top) × ((h.mem a).size ≡ g) × Clear a g bs

pub record IsOwned (top : ℕ) (h : Heap) (bs live : List Span) : Type 0 where
  pub heap : IsHeap top h bs
  pub held : All (Held top h bs) live
  pub apart : Apart live

Clear-one : (x k : ℕ) (bs : List Span) → 0 < k → Clear x k bs → Clear x 1 bs
Clear-one x k [] pos out = tt
Clear-one x k ((a, s) ∷ bs) pos out = (ground arith, Clear-one x k bs pos out.1)

-- The blocks that are held stay so when `malloc` takes `(a, g)`, and are clear of it.
still-Held :
    (top : ℕ) (h h' : Heap) (bs bs' : List Span) (a g : ℕ) (live : List Span)
    → Shrinks bs (some ((a, g), bs'))
    → ((x : ℕ) → x ≢ null → Clear x 1 bs → h'.mem x ≡ h.mem x)
    → All (Held top h bs) live
    → All (Held top h' bs') live × Clear a g live
still-Held top h h' bs bs' a g [] sh frame held = (tt, tt)
still-Held top h h' bs bs' a g ((x, k) ∷ live) sh frame (one, held) =
    let (rest, clear) = still-Held top h h' bs bs' a g live sh frame held in
    let (apart, out) = sh x k (omega arith) one.4 in
    let same = frame x (λ q. absurd (omega arith)) (Clear-one x k bs (omega arith) one.4) in
    (((one.0, one.1, one.2, ap Block.size same ∙ one.3, out), rest), (ground arith, clear))

-- What a call of `malloc_internal` comes to for the client: null and nothing changed, or a new block
-- that holds the bytes asked for and is apart from all that the client holds.
abbrev pub Grown : ℕ → ℕ → Heap → List Span → List Span → Run (ℕ × Heap) → Type 0
Grown top size h bs live r =
    (r ≡ done (null, h))
    ⊎ ((a g : ℕ) × (bs' : List Span) × (h' : Heap) × (r ≡ done (a + header_size, h'))
        × (size + header_size ≤ g)
        × IsOwned top h' bs' ((a, g) ∷ live))

-- `malloc` on a heap of a client, with enough fuel and a size from 1 that does not wrap, returns null
-- and changes nothing, or hands out a block that holds the bytes asked for and is apart from the free
-- blocks and from all that the client holds.
pub malloc_internal-IsOwned :
    (fuel top size : ℕ) (h : Heap) (bs live : List Span)
    → IsOwned top h bs live
    → length bs < fuel
    → 0 < size
    → size + 23 < 2 ^ 64
    → Grown top size h bs live (malloc_internal fuel h size)
malloc_internal-IsOwned fuel top size h bs live own f pos small =
    let (low, high, unit) = request_lem size small in
    grow (first_fit (request size) bs)
      (malloc_internal-Mallocated fuel top h bs size own.heap f pos small)
      (first_fit-Fitted top (request size) 1 bs (omega arith) own.heap.spaced)
      (first_fit-Shrinks (request size) bs) low
  where
    grow :
        (fit : Option (Span × List Span))
        → Mallocated top h bs fit (malloc_internal fuel h size)
        → Fitted top 1 (request size) bs fit
        → Shrinks bs fit
        → size + header_size ≤ request size
        → Grown top size h bs live (malloc_internal fuel h size)
    grow none m fitted sh low = inl m
    grow (some ((a, g), bs')) (h', run, heap, header, frame) fitted sh low =
        let (rest, clear) = still-Held top h h' bs bs' a g live sh frame own.held in
        inr (
          a,
          g,
          bs',
          h',
          run,
          omega (arith, fitted.0),
          record {
            heap = heap;
            held = ((fitted.1, omega (arith, fitted.0), fitted.2, header, fitted.4), rest);
            apart = (clear, own.apart);
          },
        )

-- One block of a list, and the others.
pub data Pick (b : Span) : List Span → List Span → Type 0 where
  here : {bs : List Span} → Pick b (b ∷ bs) bs
  there : {c : Span} {bs cs : List Span} → Pick b bs cs → Pick b (c ∷ bs) (c ∷ cs)

Clear-Pick :
    {b : Span} (x k : ℕ) {bs cs : List Span}
    → Pick b bs cs
    → Clear x k bs
    → ((x + k ≤ b.0) ⊎ (b.0 + b.1 ≤ x)) × Clear x k cs
Clear-Pick x k here out = out
Clear-Pick x k (there pick) out =
    let (apart, rest) = Clear-Pick x k pick out.1 in (apart, (out.0, rest))

Apart-Pick : {b : Span} {bs cs : List Span} → Pick b bs cs → Apart bs → Clear b.0 b.1 cs × Apart cs
Apart-Pick here apart = apart
Apart-Pick {b} (there {c} pick) apart =
    let (clear, rest) = Apart-Pick pick apart.1 in
    let (one, out) = Clear-Pick c.0 c.1 pick apart.0 in ((ground arith, clear), (out, rest))

All-Pick :
    (P : Span → Type 0) {b : Span} {bs cs : List Span} → Pick b bs cs → All P bs → P b × All P cs
All-Pick P here all = all
All-Pick P (there pick) all = let (one, rest) = All-Pick P pick all.1 in (one, (all.0, rest))

-- The blocks that stay held when `(b, n)` goes back.
without-Held :
    (top : ℕ) (h h' : Heap) (bs : List Span) (b n : ℕ) (live : List Span)
    → 0 < n
    → ((x : ℕ) → x ≢ b → Clear x 1 bs → h'.mem x ≡ h.mem x)
    → Clear b n live
    → All (Held top h bs) live
    → All (Held top h' (give (b, n) bs)) live
without-Held top h h' bs b n [] pos frame clear held = tt
without-Held top h h' bs b n ((x, k) ∷ live) pos frame clear (one, held) =
    let same = frame x (ground arith) (Clear-one x k bs (omega arith) one.4) in
    (
      (
        one.0,
        one.1,
        one.2,
        ap Block.size same ∙ one.3,
        give-Clear x k b n bs (omega arith) (ground arith) one.4,
      ),
      without-Held top h h' bs b n live pos frame clear.1 held,
    )

-- `free` of any block that the client holds, with enough fuel, ends and takes exactly that block back:
-- it is among the free blocks, and the others stay the client's own.
pub free_internal-IsOwned :
    (fuel top b n : ℕ) (h : Heap) (bs live live' : List Span)
    → IsOwned top h bs live
    → Pick (b, n) live live'
    → length bs < fuel
    → (h' : Heap) × (free_internal fuel h (b + header_size) ≡ done h')
      × IsOwned top h' (give (b, n) bs) live'
free_internal-IsOwned fuel top b n h bs live live' own pick f =
    let (one, held) = All-Pick (Held top h bs) pick own.held in
    let (clear, apart) = Apart-Pick pick own.apart in
    let (h', run, heap, frame) =
      free_internal-Freed top h b n one.3 (omega arith) one.0 one.2 fuel bs own.heap one.4 one.1
        f in
    (
      h',
      run,
      record {
        heap = heap;
        held = without-Held top h h' bs b n live' (omega arith) frame clear held;
        apart = apart;
      },
    )
