-- ===== src/Vmm/Lookup.antt =====
-- Unmapping against the lookups, whatever the tables look like, even where they share memory.
use eitan_os.Base.{
  dec_lt, ◌≤◌, ◌/◌, ℕ, ◌-◌, ◌%◌, ◌≡◌, ◌⊎◌, refl, ap, ◌∙◌, inl, inr, Bool, true, false, not, ◌==◌,
  ◌&&◌, if◌then◌else◌, Option, none, some, arith, Bool-cases, ==_refl, add64,
}
use eitan_os.Base.Faults.{◌>>=◌}
use eitan_os.Pmm.{Pmm, frame_size, free_frame, is_reserved}
use eitan_os.Pmm.Frames.{IsValid, capacity, get_frame_inside, get_frame_outside}
use eitan_os.Pmm.Alloc.{Freed, free_frame-Freed}
use eitan_os.Allocator.{null}
use eitan_os.Vmm.{
  Vmm, present, frame_start, without_present, put_word, enter, find_table, pml4_index, pdpt_index,
  pd_index, pt_index, release, unmap_entry, vmm_unmap_page, or_false, has_page, vmm_is_mapped,
  page_frame, vmm_virt_to_phys,
}

-- A lookup that finds what another finds, or nothing.
abbrev Weaker : Option ℕ → Option ℕ → Type 0
Weaker o o' = (o ≡ none) ⊎ (o ≡ o')

bind-Weaker :
    (o o' : Option ℕ) (f f' : ℕ → Option ℕ)
    → Weaker o o'
    → ((x : ℕ) → Weaker (f x) (f' x))
    → Weaker (o >>= f) (o' >>= f')
bind-Weaker o o' f f' (inl e) w = inl (ap (λ z. z >>= f) e)
bind-Weaker o none f f' (inr e) w = inl (ap (λ z. z >>= f) e)
bind-Weaker o (some x) f f' (inr e) w = elim (w x) [
  | inl e' ↦ inl (ap (λ z. z >>= f) e ∙ e')
  | inr e' ↦ inr (ap (λ z. z >>= f) e ∙ e')
]

cleared : (word : ℕ) → present (without_present word) ≡ false
cleared word = let e : (word - word % 2) % 2 ≡ 0 = omega arith in ap (λ z. z == 1) e

abbrev cut : Vmm → ℕ → ℕ → Vmm
cut v table index = put_word v table index (without_present (v.tables table index))

abbrev pointed : ℕ → ℕ → Option ℕ
pointed offset word = if present word then some (add64 (frame_start word) offset) else none

-- With one entry cleared, every step of a walk finds what it found, or nothing.
enter-Weaker :
    (v : Vmm) (table index t i : ℕ) → Weaker (enter (cut v table index) t i) (enter v t i)
enter-Weaker v table index t i = choose ((t == table) && (i == index))
  where
    word : ℕ
    word = without_present (v.tables table index)

    choose :
        (b : Bool)
        → Weaker
            (pointed v.hhdm_offset (if b then word else v.tables t i))
            (pointed v.hhdm_offset (v.tables t i))
    choose true = inl (
        ap (λ b. if b then some (add64 (frame_start word) v.hhdm_offset) else none)
          (cleared (v.tables table index)))
    choose false = inr refl

find_table-Weaker :
    (v : Vmm) (table index virt : ℕ)
    → Weaker (find_table (cut v table index) virt) (find_table v virt)
find_table-Weaker v table index virt =
    let v' = cut v table index in
    bind-Weaker (enter v' v.current (pml4_index virt)) (enter v v.current (pml4_index virt)) _ _
      (enter-Weaker v table index v.current (pml4_index virt))
      (λ pdpt.
        bind-Weaker (enter v' pdpt (pdpt_index virt)) (enter v pdpt (pdpt_index virt)) _ _
          (enter-Weaker v table index pdpt (pdpt_index virt))
          (λ pd. enter-Weaker v table index pd (pd_index virt)))

-- The number of the frame that a page table says for an address
abbrev pub frame_of : Vmm → ℕ → ℕ → ℕ
frame_of v table virt = frame_start (v.tables table (pt_index virt)) / frame_size

-- What `vmm_unmap_page` comes to: there is no page and nothing is done, or the frame has no bit, or the
-- frame is free and the page is gone for both lookups.
abbrev pub Unmapped : Vmm → ℕ → Option (Bool × Vmm) → Type 0
Unmapped v virt r =
    ((r ≡ some (false, v)) × (vmm_is_mapped v virt ≡ false) × (vmm_virt_to_phys v virt ≡ some null))
    ⊎ ((table : ℕ) × (find_table v virt ≡ some table)
        × (vmm_is_mapped v virt ≡ true)
        × (((capacity v.pmm ≤ frame_of v table virt) × (r ≡ none))
            ⊎ ((v' : Vmm) × (r ≡ some (true, v'))
                × Freed v.pmm (frame_of v table virt) v'.pmm
                × (vmm_is_mapped v' virt ≡ false)
                × (vmm_virt_to_phys v' virt ≡ some null))))

-- The frame of the address is free afterwards, whether or not it was reserved, if it has a bit.
release-Freed :
    (pmm : Pmm) (addr : ℕ)
    → IsValid pmm
    → ((capacity pmm ≤ addr / frame_size) × (release pmm addr ≡ none))
      ⊎ ((t : Pmm) × (release pmm addr ≡ some t) × Freed pmm (addr / frame_size) t)
unfolding release is_reserved
release-Freed pmm addr valid =
    let i = addr / frame_size in
    let go : Bool → Option Pmm = λ reserved. if reserved then free_frame pmm addr else some pmm in
    elim (dec_lt i (capacity pmm)) [
      | no out ↦
          let far : capacity pmm ≤ i = omega (arith, out) in
          inl (far, ap (λ o. o >>= go) (get_frame_outside pmm i far))
      | yes inside ↦
          let (b, bit) = get_frame_inside pmm i inside in
          elim (Bool-cases b) [
            | inl used ↦
                let (t, run, freed) = free_frame-Freed pmm addr valid inside in
                inr (t, ap (λ o. o >>= go) (bit ∙ ap some used) ∙ run, freed)
            | inr free ↦ inr (
              pmm,
              ap (λ o. o >>= go) (bit ∙ ap some free),
              (bit ∙ ap some free, λ j other. refl),
            )
          ]
    ]

absent_frame :
    (v : Vmm) (table virt : ℕ)
    → present (v.tables table (pt_index virt)) ≡ false
    → page_frame v virt (some table) ≡ some null
absent_frame v table virt gone =
    let phys = frame_start (v.tables table (pt_index virt)) in
    ap
      (λ b.
        if not b
        then some null
        else is_reserved v.pmm phys >>= (λ reserved. if reserved then some phys else some null))
      gone

-- After the entry of an address was cleared, whatever the frames, neither lookup finds a page.
cut_gone :
    (v v' : Vmm) (table virt : ℕ)
    → find_table v virt ≡ some table
    → find_table v' virt ≡ find_table (cut v table (pt_index virt)) virt
    → v'.tables table (pt_index virt) ≡ without_present (v.tables table (pt_index virt))
    → (vmm_is_mapped v' virt ≡ false) × (vmm_virt_to_phys v' virt ≡ some null)
unfolding vmm_is_mapped vmm_virt_to_phys
cut_gone v v' table virt found same word = elim (find_table-Weaker v table (pt_index virt) virt) [
  | inl e ↦ (ap (has_page v' virt) (same ∙ e), ap (page_frame v' virt) (same ∙ e))
  | inr e ↦
      let gone = ap present word ∙ cleared (v.tables table (pt_index virt)) in
      (
        ap (has_page v' virt) (same ∙ e ∙ found) ∙ gone,
        ap (page_frame v' virt) (same ∙ e ∙ found) ∙ absent_frame v' table virt gone,
      )
]

pub put_word_self :
    (v : Vmm) (table index word : ℕ) → (put_word v table index word).tables table index ≡ word
put_word_self v table index word =
    ap (λ b. if b && (index == index) then word else v.tables table index) (==_refl table)
    ∙ ap (λ b. if b then word else v.tables table index) (==_refl index)

unmap_entry-Unmapped :
    (v : Vmm) (table virt : ℕ)
    → IsValid v.pmm
    → find_table v virt ≡ some table
    → Unmapped v virt (unmap_entry v table virt)
unfolding unmap_entry vmm_is_mapped vmm_virt_to_phys
unmap_entry-Unmapped v table virt valid found = elim (Bool-cases (present word)) [
  | inl e ↦ inr (
    table,
    found,
    ap (has_page v virt) found ∙ e,
    outcome (ap (λ b. if not b then some (false, v) else done_) e),
  )
  | inr e ↦ inl (
    ap (λ b. if not b then some (false, v) else done_) e,
    ap (has_page v virt) found ∙ e,
    ap (page_frame v virt) found ∙ absent_frame v table virt e,
  )
]
  where
    word : ℕ
    word = v.tables table (pt_index virt)

    with_frames : Pmm → Vmm
    with_frames pmm = record (cut v table (pt_index virt)) { pmm = pmm }

    answer : Pmm → Option (Bool × Vmm)
    answer pmm = some (true, with_frames pmm)

    done_ : Option (Bool × Vmm)
    done_ = release v.pmm (frame_start word) >>= answer

    outcome :
        unmap_entry v table virt ≡ done_
        → ((capacity v.pmm ≤ frame_of v table virt) × (unmap_entry v table virt ≡ none))
          ⊎ ((v' : Vmm) × (unmap_entry v table virt ≡ some (true, v'))
              × Freed v.pmm (frame_of v table virt) v'.pmm
              × (vmm_is_mapped v' virt ≡ false)
              × (vmm_virt_to_phys v' virt ≡ some null))
    outcome run = elim (release-Freed v.pmm (frame_start word) valid) [
      | inl (far, stuck) ↦ inl (far, run ∙ ap (λ o. o >>= answer) stuck)
      | inr (pmm, released, freed) ↦
          let (gone, null_) =
            cut_gone v (with_frames pmm) table virt found refl
              (put_word_self v table (pt_index virt) (without_present word)) in
          inr (with_frames pmm, run ∙ ap (λ o. o >>= answer) released, freed, gone, null_)
    ]

-- `vmm_unmap_page`, over any tables, even where two levels share one, and a valid bitmap: for an address that
-- is not mapped it returns false and changes nothing; for one that is mapped, if the bitmap has a bit for the
-- frame that the page table says, it returns true, that frame is free and all others are as before, and
-- `vmm_is_mapped` and `vmm_virt_to_phys` find no page at the address.
pub vmm_unmap_page-Unmapped :
    (v : Vmm) (virt : ℕ) → IsValid v.pmm → Unmapped v virt (vmm_unmap_page v virt)
unfolding vmm_unmap_page vmm_is_mapped vmm_virt_to_phys
vmm_unmap_page-Unmapped v virt valid = go (find_table v virt) refl
  where
    go :
        (o : Option ℕ)
        → find_table v virt ≡ o
        → Unmapped v virt (or_false v o (λ table. unmap_entry v table virt))
    go none e = inl (refl, ap (has_page v virt) e, ap (page_frame v virt) e)
    go (some table) e = unmap_entry-Unmapped v table virt valid e
