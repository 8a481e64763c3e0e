-- ===== src/Allocator/Free.antt =====
-- `free_internal` refines giving a block back: the insertion in address order and both joins.
use mathlib.Core.Path.{subst, sym, ap, ◌∙◌}
use eitan_os.Base.{
  ℕ, zero, suc, ◌+◌, ◌^◌, ◌≤◌, ◌<◌, ◌≡◌, ◌≢◌, refl, inl, inr, true, false, not, ◌&&◌, List, [], ◌∷◌,
  ◌==◌, ltb, ltb→lt, arith, Bool-cases, add64, sub64, length,
}
use eitan_os.Allocator.{
  null, Block, Heap, header_size, write, link, Run, done, join_next, join_prev, put_block,
  free_loop, free_internal,
}
use eitan_os.Allocator.Spec.{Span, Spaced, Clear, join, give}
use eitan_os.Allocator.Spec.Laws.{
  give_later, give_here, join_apart, join-Given, give-Given, Spaced-Clear, give_nil,
}
use eitan_os.Allocator.Chain.{Chain, Chain-frame}
use eitan_os.Allocator.Malloc.{IsHeap}

-- `h'` differs from `h` at most in the header at `a`.
pub record OnlyAt (a : ℕ) (h h' : Heap) : Type 0 where
  pub list : h'.free_list ≡ h.free_list
  pub mem : (x : ℕ) → x ≢ a → h'.mem x ≡ h.mem x

module _ (top : ℕ) (room : top ≤ 2 ^ 64) where
  join_next-OnlyAt : (a : ℕ) (h : Heap) → OnlyAt a h (join_next a h)
  unfolding join_next
  join_next-OnlyAt a h = record { list = ground arith; mem = λ x q. ground arith }

  -- A block at the head of a chain is joined with the block behind it exactly if they touch.
  join_next-join :
      (h : Heap) (p a s : ℕ) (r : List Span)
      → Chain h.mem p ((a, s) ∷ r)
      → Spaced top (a + s) r
      → a + s ≤ top
      → 0 < a
      → Chain (join_next a h).mem a (join (a, s) r)
  unfolding join_next join
  join_next-join h p a s [] c sp fits pos = (refl, ground arith, ground arith)
  join_next-join h p a s ((b, n) ∷ r) c sp fits pos = elim (Bool-cases ((a + s) == b)) [
    | inl touch ↦
        let meet : a + s ≡ b = ground arith in
        let test : (not (b == null) && (add64 a s == b)) ≡ true = ground arith in
        let h' : Heap = join_next a h in
        let tail : Chain h'.mem (h.mem b).next r =
          Chain-frame h.mem h'.mem top (suc (b + n)) (h.mem b).next r c.2.2 sp.3
            (λ x q. (join_next-OnlyAt a h).mem x (λ e. absurd (omega arith))) in
        let nx : (h'.mem a).next ≡ (h.mem b).next = rw (c.2.0, c.1, test) (ground arith) in
        let size : (h'.mem a).size ≡ s + n = rw (c.2.0, c.1, test) (ground arith) in
        rw touch (refl, size, subst (λ q. Chain h'.mem q r) (sym nx) tail)
    | inr apart ↦
        let test : (not (b == null) && (add64 a s == b)) ≡ false = ground arith in
        rw (c.2.0, c.1, test, apart) (refl, c.1, c.2)
  ]

  -- Joining with the previous block is joining that block with its next.
  join_prev-eq-join_next :
      (h : Heap) (prev blk : ℕ)
      → prev ≢ null
      → blk ≢ null
      → (h.mem prev).next ≡ blk
      → join_prev prev blk h ≡ join_next prev h
  unfolding join_prev join_next
  join_prev-eq-join_next h prev blk p q e = ground arith

  -- `h'` has the block at `b` in the chain from `prev` on, a block of `ps` bytes, and is `h` elsewhere.
  record Behind (h h' : Heap) (b prev ps : ℕ) (bs r : List Span) : Type 0 where
    chain : Chain h'.mem prev (join (prev, ps) r)
    list : h'.free_list ≡ h.free_list
    frame : (x : ℕ) → x ≢ b → x ≢ prev → Clear x 1 bs → h'.mem x ≡ h.mem x

  -- The header of the block before it is joined: it points to the blocks behind it.
  linked : (b prev curr : ℕ) → Heap → Heap
  linked b prev curr h = link prev b (write h b (record (h.mem b) { next = curr }))

  linked-Chain :
      (h : Heap) (b n prev curr : ℕ) (bs : List Span)
      → (h.mem b).size ≡ n
      → Chain h.mem curr bs
      → Spaced top (b + n) bs
      → 0 < n
      → prev < b
      → Chain (linked b prev curr h).mem b ((b, n) ∷ bs)
  unfolding linked
  linked-Chain h b n prev curr bs e c sp pos p =
      let h' : Heap = linked b prev curr h in
      let tail : Chain h'.mem curr bs =
        Chain-frame h.mem h'.mem top (b + n) curr bs c sp (λ x q. ground arith) in
      let nx : (h'.mem b).next ≡ curr = ground arith in
      (refl, ground arith, subst (λ q. Chain h'.mem q bs) (sym nx) tail)

  put_front :
      (h : Heap) (b n curr : ℕ) (bs : List Span)
      → (h.mem b).size ≡ n
      → Chain h.mem curr bs
      → Spaced top (b + n) bs
      → 0 < n
      → 0 < b
      → b + n ≤ top
      → Chain (put_block b null curr h).mem (put_block b null curr h).free_list (join (b, n) bs)
        × ((x : ℕ) → x ≢ b → (put_block b null curr h).mem x ≡ h.mem x)
  unfolding put_block join_prev linked
  put_front h b n curr bs e c sp pos p fits =
      let only = join_next-OnlyAt b (linked b null curr h) in
      (
        rw only.list (
            join_next-join (linked b null curr h) b b n bs
              (linked-Chain h b n null curr bs e c sp pos p) sp fits p),
        λ x q. only.mem x q ∙ ground arith,
      )

  put-Behind :
      (h : Heap) (b n prev ps curr : ℕ) (bs : List Span)
      → (h.mem b).size ≡ n
      → (h.mem prev).size ≡ ps
      → Chain h.mem curr bs
      → Spaced top (b + n) bs
      → 0 < n
      → 0 < prev
      → 0 < ps
      → prev + ps ≤ b
      → b + n ≤ top
      → Behind h (put_block b prev curr h) b prev ps bs (join (b, n) bs)
  unfolding put_block linked
  put-Behind h b n prev ps curr bs e e' c sp pos p ppos before fits =
      let pointed : Heap = linked b prev curr h in
      let joined : Heap = join_next b pointed in
      let only = join_next-OnlyAt b pointed in
      let only' = join_next-OnlyAt prev joined in
      let apart : prev ≢ b = λ q. absurd (omega arith) in
      let at_prev : pointed.mem prev ≡ record { size = ps; next = b } = linked_at_prev in
      let at_prev' : joined.mem prev ≡ record { size = ps; next = b } =
        only.mem prev apart ∙ at_prev in
      let swap : put_block b prev curr h ≡ join_next prev joined =
        join_prev-eq-join_next joined prev b (λ q. absurd (omega arith)) (λ q. absurd (omega arith))
          (ap Block.next at_prev') in
      let back : Chain joined.mem b (join (b, n) bs) =
        join_next-join pointed b b n bs (linked-Chain h b n prev curr bs e c sp pos (omega arith))
          sp fits (omega arith) in
      let (spaced, _) = join-Given top (prev + ps) b n bs before pos fits sp in
      subst (λ g. Behind h g b prev ps bs (join (b, n) bs)) (sym swap)
        (record {
          chain =
              join_next-join joined prev prev ps (join (b, n) bs)
                (
                  refl,
                  ap Block.size at_prev',
                  subst (λ q. Chain joined.mem q (join (b, n) bs)) (sym (ap Block.next at_prev'))
                      back,
                )
                spaced (omega arith) p;
          list = only'.list ∙ only.list ∙ linked_list;
          frame = λ x q r _. only'.mem x r ∙ only.mem x q ∙ linked_frame x q r;
        })
    where
      some_prev : (prev == null) ≡ false
      some_prev = ground arith

      linked_at_prev : (linked b prev curr h).mem prev ≡ record { size = ps; next = b }
      linked_at_prev = ground arith

      linked_list : (linked b prev curr h).free_list ≡ h.free_list
      linked_list = ground arith

      linked_frame : (x : ℕ) → x ≢ b → x ≢ prev → (linked b prev curr h).mem x ≡ h.mem x
      linked_frame x q r = ground arith

  -- A block that lies before the place, and apart from the block behind it, stays as it is.
  Behind-step :
      (h h' : Heap) (b n prev ps a s : ℕ) (bs : List Span)
      → (h.mem prev).size ≡ ps
      → (h.mem prev).next ≡ a
      → a < b
      → 0 < prev
      → prev + ps < a
      → 0 < s
      → Clear prev 1 bs
      → Spaced top (suc (prev + ps)) (give (b, n) ((a, s) ∷ bs))
      → Behind h h' b a s bs (give (b, n) bs)
      → Behind h h' b prev ps ((a, s) ∷ bs) (give (b, n) ((a, s) ∷ bs))
  Behind-step h h' b n prev ps a s bs e l under pos before some_bytes clear sp bh =
      let same : h'.mem prev ≡ h.mem prev =
        bh.frame prev (λ q. absurd (omega arith)) (λ q. absurd (omega arith)) clear in
      let rest : Chain h'.mem a (give (b, n) ((a, s) ∷ bs)) =
        rw (give_later b n a s bs under) bh.chain in
      record {
        chain = rw (join_apart top prev ps (give (b, n) ((a, s) ∷ bs)) sp) (
          refl,
          ap Block.size same ∙ e,
          subst (λ q. Chain h'.mem q (give (b, n) ((a, s) ∷ bs))) (sym (ap Block.next same ∙ l))
              rest,
        );
        list = bh.list;
        frame = λ x q r out. bh.frame x q (ground arith) out.1;
      }

  -- The loop from a block in front of the place on.
  free_loop-Behind :
      (fuel : ℕ) (h : Heap) (b n prev ps curr : ℕ) (bs : List Span)
      → length bs < fuel
      → (h.mem b).size ≡ n
      → (h.mem prev).size ≡ ps
      → (h.mem prev).next ≡ curr
      → Chain h.mem curr bs
      → Spaced top (suc (prev + ps)) bs
      → Clear b n bs
      → 0 < n
      → 0 < prev
      → 0 < ps
      → prev + ps ≤ b
      → b + n ≤ top
      → (h' : Heap) × (free_loop fuel b prev curr h ≡ done h')
        × Behind h h' b prev ps bs (give (b, n) bs)
  unfolding free_loop
  free_loop-Behind zero h b n prev ps curr bs f e e' l c sp clear pos p ppos before fits =
      absurd (omega arith)
  free_loop-Behind (suc fuel) h b n prev ps curr [] f e e' l c sp clear pos p ppos before fits =
      rw c (
        put_block b prev null h,
        refl,
        subst (Behind h (put_block b prev null h) b prev ps []) (sym (give_nil b n))
            (put-Behind h b n prev ps null [] e e' refl tt pos p ppos before fits),
      )
  free_loop-Behind (suc fuel) h b n prev ps curr ((a, s) ∷ bs) f e e' l c sp clear pos p ppos before
        fits =
      let here : (a == null) ≡ false = ground arith in
      elim (Bool-cases (ltb a b)) [
        | inl before_b ↦
            let under : a < b = ltb→lt a b before_b in
            let (h', run, bh) =
              free_loop-Behind fuel h b n a s (h.mem a).next bs (omega arith) e c.1 refl c.2 sp.3
                clear.1 pos (omega arith) sp.1 (ground arith) fits in
            let (spaced, _) =
              give-Given top b n (suc (prev + ps)) ((a, s) ∷ bs) sp clear (omega arith) pos fits in
            rw (c.0, here, before_b)
              (
                h',
                run,
                Behind-step h h' b n prev ps a s bs e' (l ∙ c.0) under p sp.0 sp.1
                    (Spaced-Clear top (suc (a + s)) prev 1 bs sp.3 (omega arith)) spaced bh,
              )
        | inr behind ↦
            rw (c.0, here, behind)
              (
                put_block b prev a h,
                refl,
                subst (Behind h (put_block b prev a h) b prev ps ((a, s) ∷ bs))
                    (sym (give_here b n a s bs (ground arith)))
                    (put-Behind h b n prev ps a ((a, s) ∷ bs) e e' (refl, c.1, c.2)
                      (ground arith, sp.1, sp.2, sp.3) pos p ppos before fits),
              )
      ]

-- What a call of `free_internal` on a block that was handed out comes to: the free list with the block
-- given back, and no other header changed outside the free blocks.
abbrev pub Freed : ℕ → Heap → List Span → Span → Run Heap → Type 0
Freed top h bs (b, n) r =
    (h' : Heap) × (r ≡ done h')
    × IsHeap top h' (give (b, n) bs)
    × ((x : ℕ) → x ≢ b → Clear x 1 bs → h'.mem x ≡ h.mem x)

module _ (top : ℕ) (h : Heap) (b n : ℕ) (size : (h.mem b).size ≡ n) (pos : 0 < n) (real : 0 < b)
    (fits : b + n ≤ top) where
  at_front :
      (curr : ℕ) (bs : List Span) (room : top ≤ 2 ^ 64)
      → Chain h.mem curr bs
      → Spaced top (b + n) bs
      → give (b, n) bs ≡ join (b, n) bs
      → Freed top h bs (b, n) (done (put_block b null curr h))
  at_front curr bs room c sp g =
      let (chain, frame) = put_front top room h b n curr bs size c sp pos real fits in
      let (spaced, _) = join-Given top 1 b n bs real pos fits sp in
      (
        put_block b null curr h,
        refl,
        rw g (record { room = room; chain = chain; spaced = spaced }),
        λ x q _. frame x q,
      )

  free_loop-Freed :
      (fuel curr : ℕ) (bs : List Span)
      → top ≤ 2 ^ 64
      → h.free_list ≡ curr
      → Chain h.mem curr bs
      → Spaced top 1 bs
      → Clear b n bs
      → length bs < fuel
      → Freed top h bs (b, n) (free_loop fuel b null curr h)
  unfolding free_loop
  free_loop-Freed zero curr bs room l c sp clear f = absurd (omega arith)
  free_loop-Freed (suc fuel) curr [] room l c sp clear f =
      rw c (at_front null [] room refl tt (give_nil b n))
  free_loop-Freed (suc fuel) curr ((a, s) ∷ bs) room l c sp clear f =
      let here : (a == null) ≡ false = ground arith in
      let (spaced, _) = give-Given top b n 1 ((a, s) ∷ bs) sp clear real pos fits in
      elim (Bool-cases (ltb a b)) [
        | inl before_b ↦
            let (h', run, bh) =
              free_loop-Behind top room fuel h b n a s (h.mem a).next bs (omega arith) size c.1 refl
                c.2 sp.3 clear.1 pos sp.0 sp.1 (ground arith) fits in
            let list : h'.free_list ≡ a = bh.list ∙ l ∙ c.0 in
            rw (c.0, here, before_b)
              (
                h',
                run,
                record {
                  room = room;
                  chain = rw (list, give_later b n a s bs (ltb→lt a b before_b)) bh.chain;
                  spaced = spaced;
                },
                λ x q out. bh.frame x q (ground arith) out.1,
              )
        | inr behind ↦
            rw (c.0, here, behind)
              (at_front a ((a, s) ∷ bs) room (refl, c.1, c.2) (ground arith, sp.1, sp.2, sp.3)
                (give_here b n a s bs (ground arith)))
      ]

  -- `free_internal` on the pointer of a block that is clear of the free blocks, in a heap, gives the
  -- block back, with fuel for one step more than there are free blocks.
  pub free_internal-Freed :
      (fuel : ℕ) (bs : List Span)
      → IsHeap top h bs
      → Clear b n bs
      → header_size < n
      → length bs < fuel
      → Freed top h bs (b, n) (free_internal fuel h (b + header_size))
  unfolding free_internal
  free_internal-Freed fuel bs heap clear held f =
      let some_ptr : ((b + header_size) == null) ≡ false = ground arith in
      let blk : sub64 (b + header_size) header_size ≡ b = omega (arith, heap.room) in
      rw (some_ptr, blk)
        (free_loop-Freed fuel h.free_list bs heap.room refl heap.chain heap.spaced clear f)
