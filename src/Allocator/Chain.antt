-- ===== src/Allocator/Chain.antt =====
-- The free list in memory: from the list pointer the headers lead through the blocks to null.
use eitan_os.Base.{ℕ, suc, ◌+◌, ◌≤◌, ◌≡◌, List, [], ◌∷◌, ◌==◌, if◌then◌else◌, arith}
use eitan_os.Allocator.{null, Block, Heap}
use eitan_os.Allocator.Spec.{Span, Spaced}

abbrev pub Chain : (ℕ → Block) → ℕ → List Span → Type 0
Chain m p [] = p ≡ null
Chain m p ((a, s) ∷ bs) = (p ≡ a) × ((m a).size ≡ s) × Chain m (m a).next bs

-- Where the pointer that `link` sets is kept.
abbrev pub link_of : ℕ → Heap → ℕ
link_of prev h = if prev == null then h.free_list else (h.mem prev).next

-- Headers that stay carry the chain over.
pub Chain-frame :
    (m m' : ℕ → Block) (top lo p : ℕ) (bs : List Span)
    → Chain m p bs
    → Spaced top lo bs
    → ((x : ℕ) → lo ≤ x → m' x ≡ m x)
    → Chain m' p bs
Chain-frame m m' top lo p [] c sp same = c
Chain-frame m m' top lo p ((a, s) ∷ bs) c sp same =
    let e = same a sp.0 in
    (
      c.0,
      rw e c.1,
      rw e
          (Chain-frame m m' top (suc (a + s)) (m a).next bs c.2 sp.3 (λ x h. same x (omega arith))),
    )
