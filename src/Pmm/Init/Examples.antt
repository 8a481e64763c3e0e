-- ===== src/Pmm/Init/Examples.antt =====
-- `pmm_init` and its theorems at concrete memory maps.
use mathlib.Core.Path.{subst}
use eitan_os.Base.{ℕ, ◌≡◌, refl, none, some, List, [], ◌∷◌, arith}
use eitan_os.Pmm.{Pmm, set_frame, put_bit, set_frames, free_region}
use eitan_os.Pmm.Init.{Entry, top_of_ram, place_bitmap, free_usable, init}
use eitan_os.Pmm.Init.Laws.{Ready, init-Ready}
use eitan_os.Pmm.Init.Overrun.{init_overruns}

abbrev usable_from : ℕ → ℕ → Entry
usable_from base length = record { base = base; length = length; type = 0 }

-- 11 frames of memory; the entry from frame 2 on ends before frame 5.
abbrev memmap : List Entry
memmap = usable_from 0x2000 0x3000 ∷ usable_from 0x8000 0x3800 ∷ []

abbrev cut : List Entry
cut = usable_from 0x2002 0x2FFE ∷ usable_from 0x8000 0x3800 ∷ []

abbrev ready : Pmm
ready = record { bitmap = 199 ∷ 240 ∷ []; total_frames = 11 }

init_runs : init memmap 0xffff800000000000 ≡ some (ready, cut)
unfolding init free_usable top_of_ram place_bitmap free_region set_frames set_frame put_bit
init_runs = refl

abbrev hhdm : ℕ
hhdm = 0xffff800000000000

init-Ready_example : (s : Pmm) × (init memmap hhdm ≡ some (s, cut)) × Ready memmap cut 0x2000 s
unfolding top_of_ram place_bitmap
init-Ready_example =
    init-Ready memmap cut hhdm 0x2000 (omega arith) (omega arith) (omega arith) refl (omega arith)

ready-Ready : Ready memmap cut 0x2000 ready
unfolding top_of_ram place_bitmap
ready-Ready =
    let (s, run, is) =
      init-Ready memmap cut hhdm 0x2000 (omega arith) (omega arith) (omega arith) refl
        (omega arith) in
    subst (Ready memmap cut 0x2000) (cc (run, init_runs)) is

abbrev six_frames : List Entry
six_frames = usable_from 0x2000 0x6000 ∷ []

init_overruns_example :
    (free_usable (usable_from 0x2001 0x5FFF ∷ []) (record { bitmap = 255 ∷ []; total_frames = 8 })
      ≡ none)
    × (init six_frames hhdm ≡ none)
unfolding top_of_ram place_bitmap
init_overruns_example =
    init_overruns six_frames (usable_from 0x2001 0x5FFF ∷ []) hhdm 0x2000 (omega arith) refl
      (omega arith) refl
