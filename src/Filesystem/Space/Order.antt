-- ===== src/Filesystem/Space/Order.antt =====
-- filesystem.c: the insertion sort in `find_space_for_file` gives the same entries in the order of their first
-- sectors, and what holds of any two different entries still does.
use mathlib.Core.List.{Perm}
use eitan_os.Base.{
  ◌≤◌, sym, subst, inl, inr, ltb, if◌then◌else◌, Bool-cases, List, [], ◌∷◌, ◌++◌, All, All-map,
  All-zip, arith, Reordered, same, behind, swapped, twice, Reordered-back, Reordered-middle,
  Reordered-append, Reordered-Perm, All-Reordered, append_nil,
}
use eitan_os.Filesystem.Table.{FileEntry}
use eitan_os.Filesystem.Space.Sorting.{place, sort_loop, upwards, sort}

-- Any two entries are related, the earlier one to the later.
abbrev pub Pairwise : (FileEntry → FileEntry → Type 0) → List FileEntry → Type 0
Pairwise R [] = Unit
Pairwise R (e ∷ es) = All (R e) es × Pairwise R es

abbrev pub NotAfter : FileEntry → FileEntry → Type 0
NotAfter e f = e.start_sector ≤ f.start_sector

place-Reordered :
    (key : FileEntry) (sorted : List FileEntry) → Reordered (place key sorted) (key ∷ sorted)
unfolding place
place-Reordered key [] = same
place-Reordered key (e ∷ sorted) = elim (Bool-cases (ltb key.start_sector e.start_sector)) [
  | inl h ↦
      subst
        (λ b. Reordered (if b then e ∷ place key sorted else key ∷ e ∷ sorted) (key ∷ e ∷ sorted))
        (sym h) (twice (behind (place-Reordered key sorted)) (swapped))
  | inr h ↦
      subst
        (λ b. Reordered (if b then e ∷ place key sorted else key ∷ e ∷ sorted) (key ∷ e ∷ sorted))
        (sym h) same
]

sort_loop-Reordered :
    (sorted rest : List FileEntry) → Reordered (sort_loop sorted rest) (rest ++ sorted)
unfolding sort_loop
sort_loop-Reordered sorted [] = same
sort_loop-Reordered sorted (key ∷ rest) =
    twice (sort_loop-Reordered (place key sorted) rest) (
      twice (Reordered-append rest (place-Reordered key sorted)) (Reordered-middle key rest sorted))

upwards-Reordered :
    (sorted order : List FileEntry) → Reordered (upwards sorted order) (sorted ++ order)
upwards-Reordered [] order = same
upwards-Reordered (e ∷ sorted) order =
    twice (upwards-Reordered sorted (e ∷ order)) (Reordered-middle e sorted order)

pub sort-Reordered : (entries : List FileEntry) → Reordered (sort entries) entries
sort-Reordered entries =
    let sorted = sort_loop [] entries in
    let up : Reordered (sort entries) sorted =
      subst (Reordered (sort entries)) (append_nil sorted) (upwards-Reordered sorted []) in
    twice up (subst (Reordered sorted) (append_nil entries) (sort_loop-Reordered [] entries))

trivial :
    (P : FileEntry → Type 0) (entries : List FileEntry) → ((e : FileEntry) → P e) → All P entries
trivial P [] all = tt
trivial P (e ∷ entries) all = (all e, trivial P entries all)

abbrev Falling : (FileEntry → FileEntry → Type 0) → FileEntry → FileEntry → Type 0
Falling R e f = NotAfter f e × R e f

abbrev pub Rising : (FileEntry → FileEntry → Type 0) → FileEntry → FileEntry → Type 0
Rising R e f = NotAfter e f × R e f

-- What is kept for any two entries must not depend on their order.
module _ (R : FileEntry → FileEntry → Type 0) (R-sym : (e f : FileEntry) → R e f → R f e) where
  place-Falling :
      (key : FileEntry) (sorted : List FileEntry)
      → All (R key) sorted
      → Pairwise (Falling R) sorted
      → Pairwise (Falling R) (place key sorted)
  unfolding place
  place-Falling key [] apart falling = (tt, tt)
  place-Falling key (e ∷ sorted) (one, apart) (under, falling) =
      elim (Bool-cases (ltb key.start_sector e.start_sector)) [
        | inl h ↦
            subst (λ b. Pairwise (Falling R) (if b then e ∷ place key sorted else key ∷ e ∷ sorted))
              (sym h)
              (
                All-Reordered (Falling R e) (Reordered-back (place-Reordered key sorted))
                    ((ground (arith, h), R-sym key e one), under),
                place-Falling key sorted apart falling,
              )
        | inr h ↦
            let below : NotAfter e key = ground (arith, h) in
            subst (λ b. Pairwise (Falling R) (if b then e ∷ place key sorted else key ∷ e ∷ sorted))
              (sym h)
              (
                (
                  (below, one),
                  All-zip (Falling R e) (R key) (Falling R key) sorted
                      (λ f under r. (omega (arith, below, under.0), r)) under apart,
                ),
                (under, falling),
              )
      ]

  sort_loop-Falling :
      (sorted rest : List FileEntry)
      → All (λ key. All (R key) sorted) rest
      → Pairwise R rest
      → Pairwise (Falling R) sorted
      → Pairwise (Falling R) (sort_loop sorted rest)
  unfolding sort_loop
  sort_loop-Falling sorted [] cross apart falling = falling
  sort_loop-Falling sorted (key ∷ rest) (one, cross) (keyed, apart) falling =
      sort_loop-Falling (place key sorted) rest
        (All-zip (λ f. All (R f) sorted) (R key) (λ f. All (R f) (place key sorted)) rest
          (λ f across r.
            All-Reordered (R f) (Reordered-back (place-Reordered key sorted))
              (R-sym key f r, across))
          cross keyed)
        apart (place-Falling key sorted one falling)

  upwards-Rising :
      (sorted order : List FileEntry)
      → All (λ e. All (Rising R e) order) sorted
      → Pairwise (Falling R) sorted
      → Pairwise (Rising R) order
      → Pairwise (Rising R) (upwards sorted order)
  upwards-Rising [] order cross falling rising = rising
  upwards-Rising (e ∷ sorted) order (one, cross) (under, falling) rising =
      upwards-Rising sorted (e ∷ order)
        (All-zip (λ f. All (Rising R f) order) (Falling R e) (λ f. All (Rising R f) (e ∷ order))
          sorted (λ f across under. ((under.0, R-sym e f under.1), across)) cross under)
        falling (one, rising)

  pub sort-Rising :
      (entries : List FileEntry) → Pairwise R entries → Pairwise (Rising R) (sort entries)
  sort-Rising entries apart =
      let falling = sort_loop-Falling [] entries (trivial (λ e. Unit) entries (λ e. tt)) apart tt in
      upwards-Rising (sort_loop [] entries) []
        (trivial (λ e. Unit) (sort_loop [] entries) (λ e. tt)) falling tt

unrelated : (entries : List FileEntry) → Pairwise (λ e f. Unit) entries
unrelated [] = tt
unrelated (e ∷ entries) = (trivial (λ f. Unit) entries (λ f. tt), unrelated entries)

pub Rising-Pairwise :
    (entries : List FileEntry) → Pairwise (Rising (λ e f. Unit)) entries → Pairwise NotAfter entries
Rising-Pairwise [] rising = tt
Rising-Pairwise (e ∷ entries) (one, rising) = (
  All-map (Rising (λ e f. Unit) e) (NotAfter e) entries (λ f r. r.0) one,
  Rising-Pairwise entries rising,
)

-- The order that `find_space_for_file` goes through has the entries it was given, each as often, and none
-- stands before one whose first sector is lower.
pub sort-Perm-Pairwise :
    (entries : List FileEntry) → Perm (sort entries) entries × Pairwise NotAfter (sort entries)
sort-Perm-Pairwise entries = (
  Reordered-Perm (sort-Reordered entries),
  Rising-Pairwise (sort entries)
      (sort-Rising (λ e f. Unit) (λ e f h. tt) entries (unrelated entries)),
)
