-- ===== src/Vmm/Mapping.antt =====
-- `vmm_map_page` where the page table of the address is there, against the lookups.
use eitan_os.Base.{
  ℕ, ◌+◌, ◌*◌, ◌/◌, ◌%◌, ◌^◌, ◌<◌, ◌≤◌, ◌≡◌, ◌⊎◌, sym, ap, subst, ◌∙◌, inl, inr, Bool, true, false,
  not, ◌==◌, if◌then◌else◌, Option, none, some, arith, Bool-cases, ==_refl,
}
use eitan_os.Base.Faults.{◌>>=◌}
use eitan_os.Pmm.{Pmm, frame_size, get_frame, is_reserved, reserve_frame}
use eitan_os.Pmm.Frames.{IsValid, capacity, get_frame_outside}
use eitan_os.Pmm.Regions.{reserve_frame-TriedFrame}
use eitan_os.Allocator.{null}
use eitan_os.Vmm.Walk.{Walk, Unshared, find_table-Walk, map_page-Walk, still_Walk, with_frames}
use eitan_os.Vmm.Lookup.{put_word_self}
use eitan_os.Vmm.{
  Vmm, present, frame_start, with_physical_addr, put_word, pt_index, map_entry, vmm_map_page,
  has_page, vmm_is_mapped, page_frame, vmm_virt_to_phys,
}

-- The word that is written has the flags' bit 0 and the frame's number.
written-present :
    (flags phys : ℕ) → flags % 2 ≡ 1 → present (with_physical_addr flags (phys / 2 ^ 12)) ≡ true
written-present flags phys odd =
    let e : (flags % 2 ^ 12 + phys / 2 ^ 12 % 2 ^ 40 * 2 ^ 12 + flags / 2 ^ 52 * 2 ^ 52) % 2 ≡ 1 =
      omega (arith, odd) in
    ap (λ z. z == 1) e

written-frame :
    (flags phys : ℕ)
    → flags < 2 ^ 64
    → phys < 2 ^ 40
    → frame_start (with_physical_addr flags (phys / 2 ^ 12)) ≡ phys / 2 ^ 12 * 2 ^ 12
written-frame flags phys small low = omega (arith, small, low)

is_reserved_frame :
    (pmm : Pmm) (addr : ℕ) (b : Bool)
    → get_frame pmm (addr / frame_size) ≡ some b
    → is_reserved pmm addr ≡ some b
unfolding is_reserved
is_reserved_frame pmm addr b e = e

abbrev looked_up : Pmm → ℕ → Option ℕ
looked_up pmm word =
    let phys = frame_start word in
    if not (present word)
    then some null
    else is_reserved pmm phys >>= (λ reserved. if reserved then some phys else some null)

looked_up_lem :
    (pmm : Pmm) (word frame : ℕ)
    → present word ≡ true
    → frame_start word ≡ frame * 2 ^ 12
    → get_frame pmm frame ≡ some true
    → looked_up pmm word ≡ some (frame * 2 ^ 12)
looked_up_lem pmm word frame here_ e used =
    let phys = frame_start word in
    let found = λ (reserved : Bool). if reserved then some phys else some null in
    ap (λ b. if not b then some null else is_reserved pmm phys >>= found) here_
    ∙ ap (λ o. o >>= found)
        (is_reserved_frame pmm phys true (ap (get_frame pmm) (omega (arith, e)) ∙ used))
    ∙ ap some e

is_reserved_outside :
    (pmm : Pmm) (addr : ℕ) → capacity pmm ≤ addr / frame_size → is_reserved pmm addr ≡ none
unfolding is_reserved
is_reserved_outside pmm addr far = get_frame_outside pmm (addr / frame_size) far

-- The page is there, at the frame that was meant.
abbrev pub Shows : Vmm → ℕ → ℕ → Type 0
Shows v virt phys =
    (vmm_is_mapped v virt ≡ true) × (vmm_virt_to_phys v virt ≡ some (phys / 2 ^ 12 * 2 ^ 12))

written-Shows :
    (v : Vmm) (virt pdpt pd pt phys flags : ℕ) (pmm : Pmm)
    → Walk v virt pdpt pd pt
    → Unshared v pdpt pd pt
    → flags % 2 ≡ 1
    → flags < 2 ^ 64
    → phys < 2 ^ 40
    → get_frame pmm (phys / 2 ^ 12) ≡ some true
    → Shows
        (with_frames v pt (pt_index virt) (with_physical_addr flags (phys / 2 ^ 12)) pmm)
        virt
        phys
unfolding vmm_is_mapped vmm_virt_to_phys
written-Shows v virt pdpt pd pt phys flags pmm walk unshared odd small low used =
    let word = with_physical_addr flags (phys / 2 ^ 12) in
    let v' = put_word (record v { pmm = pmm }) pt (pt_index virt) word in
    let found =
      find_table-Walk v' virt pdpt pd pt (still_Walk v virt pdpt pd pt word pmm walk unshared) in
    let self = put_word_self (record v { pmm = pmm }) pt (pt_index virt) word in
    (
      ap (has_page v' virt) found ∙ ap present self ∙ written-present flags phys odd,
      ap (page_frame v' virt) found
          ∙ ap (looked_up pmm) self
          ∙ looked_up_lem pmm word (phys / 2 ^ 12) (written-present flags phys odd)
              (written-frame flags phys small low) used,
    )

-- What `vmm_map_page` comes to: the address is mapped and nothing is done, the bitmap has no bit for the
-- frame, or the page is there.
abbrev pub MappedPage : Vmm → ℕ → ℕ → Option (Bool × Vmm) → Type 0
MappedPage v virt phys r =
    ((vmm_is_mapped v virt ≡ true) × (r ≡ some (false, v)))
    ⊎ ((vmm_is_mapped v virt ≡ false)
        × (((capacity v.pmm ≤ phys / frame_size) × (r ≡ none))
            ⊎ ((v' : Vmm) × (r ≡ some (true, v')) × Shows v' virt phys)))

map_entry-MappedPage :
    (v : Vmm) (virt pdpt pd pt phys flags : ℕ)
    → Walk v virt pdpt pd pt
    → Unshared v pdpt pd pt
    → IsValid v.pmm
    → flags % 2 ≡ 1
    → flags < 2 ^ 64
    → phys < 2 ^ 40
    → MappedPage v virt phys (map_entry v pt virt phys flags)
unfolding map_entry vmm_is_mapped
map_entry-MappedPage v virt pdpt pd pt phys flags walk unshared valid odd small low =
    let found = find_table-Walk v virt pdpt pd pt walk in
    let word = v.tables pt (pt_index virt) in
    let mapped = λ (pmm : Pmm).
      put_word (record v { pmm = pmm }) pt (pt_index virt)
        (with_physical_addr flags (phys / 2 ^ 12)) in
    let take = λ (r : Bool × Pmm).
      if r.0 then some (true, mapped r.1) else some (false, record v { pmm = r.1 }) in
    let go : Bool → Option (Bool × Vmm) = λ reserved.
      if reserved then some (true, mapped v.pmm) else reserve_frame v.pmm phys >>= take in
    let shows =
      λ (pmm : Pmm). written-Shows v virt pdpt pd pt phys flags pmm walk unshared odd small low in
    elim (Bool-cases (present word)) [
      | inl e ↦ inl (
        ap (has_page v virt) found ∙ e,
        ap (λ b. if b then some (false, v) else is_reserved v.pmm phys >>= go) e,
      )
      | inr e ↦
          let start = ap (λ b. if b then some (false, v) else is_reserved v.pmm phys >>= go) e in
          inr (
            ap (has_page v virt) found ∙ e,
            elim (reserve_frame-TriedFrame v.pmm phys valid) [
              | inl (free, (t, run, sets)) ↦ inr (
                mapped t,
                start
                    ∙ ap (λ o. o >>= go) (is_reserved_frame v.pmm phys false free)
                    ∙ ap (λ o. o >>= take) run,
                shows t (
                    sets.frames (phys / 2 ^ 12)
                    ∙ ap (λ b. if b then some true else get_frame v.pmm (phys / 2 ^ 12))
                        (==_refl (phys / 2 ^ 12))),
              )
              | inr (inl (used, run)) ↦ inr (
                mapped v.pmm,
                start ∙ ap (λ o. o >>= go) (is_reserved_frame v.pmm phys true used),
                shows v.pmm used,
              )
              | inr (inr (far, run)) ↦
                  inl (far, start ∙ ap (λ o. o >>= go) (is_reserved_outside v.pmm phys far))
            ],
          )
    ]

-- Where the page table of an address is there and is none of the tables above it, for flags with bit 0 and
-- a frame under 2^40, which is where the code's own reading of an entry ends: `vmm_map_page` of an address that is mapped returns false and changes nothing;
-- otherwise it returns true unless the bitmap has no bit for the frame, and then `vmm_is_mapped` is true and
-- `vmm_virt_to_phys` is the start of that frame.
pub vmm_map_page-MappedPage :
    (v : Vmm) (virt pdpt pd pt phys flags : ℕ)
    → Walk v virt pdpt pd pt
    → Unshared v pdpt pd pt
    → IsValid v.pmm
    → flags % 2 ≡ 1
    → flags < 2 ^ 64
    → phys < 2 ^ 40
    → MappedPage v virt phys (vmm_map_page v virt phys flags)
vmm_map_page-MappedPage v virt pdpt pd pt phys flags walk unshared valid odd small low =
    subst (MappedPage v virt phys) (sym (map_page-Walk v virt pdpt pd pt phys flags walk))
      (map_entry-MappedPage v virt pdpt pd pt phys flags walk unshared valid odd small low)
