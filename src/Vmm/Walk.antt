-- ===== src/Vmm/Walk.antt =====
-- The walk to the page table of an address, and what a write to that table leaves of it.
use eitan_os.Base.{
  ℕ, ◌≡◌, ◌≢◌, ap, ◌∙◌, Bool, true, false, ◌==◌, ◌&&◌, if◌then◌else◌, Option, none, some, arith,
  ne→==, add64,
}
use eitan_os.Base.Faults.{◌>>=◌}
use eitan_os.Pmm.{Pmm}
use eitan_os.Vmm.{
  Vmm, present, frame_start, put_word, enter, find_table, pml4_index, pdpt_index, pd_index,
  pt_index, next_table, level, map_entry, vmm_map_page,
}

-- The tables on the way to a page table.
abbrev pub Walk : Vmm → ℕ → ℕ → ℕ → ℕ → Type 0
Walk v virt pdpt pd pt =
    (enter v v.current (pml4_index virt) ≡ some pdpt)
    × (enter v pdpt (pdpt_index virt) ≡ some pd)
    × (enter v pd (pd_index virt) ≡ some pt)

pub find_table-Walk :
    (v : Vmm) (virt pdpt pd pt : ℕ) → Walk v virt pdpt pd pt → find_table v virt ≡ some pt
find_table-Walk v virt pdpt pd pt (a, b, c) =
    ap (λ o. o >>= (λ pdpt. enter v pdpt (pdpt_index virt) >>= (λ pd. enter v pd (pd_index virt))))
      a
    ∙ ap (λ o. o >>= (λ pd. enter v pd (pd_index virt))) b
    ∙ c

next_table-enter :
    (v : Vmm) (table index next : ℕ)
    → enter v table index ≡ some next
    → next_table v table index ≡ some (some next, v)
unfolding next_table
next_table-enter v table index next e =
    either (present (v.tables table index))
      (add64 (frame_start (v.tables table index)) v.hhdm_offset) _ e
  where
    either :
        (b : Bool) (child : ℕ) (made : Option (Option ℕ × Vmm))
        → (if b then some child else none) ≡ some next
        → (if b then some (some child, v) else made) ≡ some (some next, v)
    either true child made e = ap (λ o. some (o, v)) e
    either false child made e = absurd (ground (arith, e))

pub map_page-Walk :
    (v : Vmm) (virt pdpt pd pt phys flags : ℕ)
    → Walk v virt pdpt pd pt
    → vmm_map_page v virt phys flags ≡ map_entry v pt virt phys flags
unfolding vmm_map_page
map_page-Walk v virt pdpt pd pt phys flags (a, b, c) =
    ap
      (λ o. o >>= (λ r. level r (λ pdpt v1. next_table v1 pdpt (pdpt_index virt) >>= (λ r.
        level r (λ pd v2.
          next_table v2 pd (pd_index virt)
          >>= (λ r. level r (λ pt v3. map_entry v3 pt virt phys flags)))))))
      (next_table-enter v v.current (pml4_index virt) pdpt a)
    ∙ ap
        (λ o. o >>= (λ r. level r (λ pd v2.
          next_table v2 pd (pd_index virt)
          >>= (λ r. level r (λ pt v3. map_entry v3 pt virt phys flags)))))
        (next_table-enter v pdpt (pdpt_index virt) pd b)
    ∙ ap (λ o. o >>= (λ r. level r (λ pt v3. map_entry v3 pt virt phys flags)))
        (next_table-enter v pd (pd_index virt) pt c)

-- A write to a table leaves the entries of another.
enter-other :
    (v : Vmm) (table index word t i : ℕ)
    → t ≢ table
    → enter (put_word v table index word) t i ≡ enter v t i
enter-other v table index word t i apart =
    ap
      (λ b.
        let entry = if b && (i == index) then word else v.tables t i in
        if present entry then some (add64 (frame_start entry) v.hhdm_offset) else none)
      (ne→== t table apart)

-- The page table is none of the tables above it.
abbrev pub Unshared : Vmm → ℕ → ℕ → ℕ → Type 0
Unshared v pdpt pd pt = (v.current ≢ pt) × (pdpt ≢ pt) × (pd ≢ pt)

abbrev pub with_frames : Vmm → ℕ → ℕ → ℕ → Pmm → Vmm
with_frames v table index word pmm = put_word (record v { pmm = pmm }) table index word

pub still_Walk :
    (v : Vmm) (virt pdpt pd pt word : ℕ) (pmm : Pmm)
    → Walk v virt pdpt pd pt
    → Unshared v pdpt pd pt
    → Walk (with_frames v pt (pt_index virt) word pmm) virt pdpt pd pt
still_Walk v virt pdpt pd pt word pmm (a, b, c) (x, y, z) =
    let v' = record v { pmm = pmm } in
    (
      enter-other v' pt (pt_index virt) word v.current (pml4_index virt) x ∙ a,
      enter-other v' pt (pt_index virt) word pdpt (pdpt_index virt) y ∙ b,
      enter-other v' pt (pt_index virt) word pd (pd_index virt) z ∙ c,
    )
