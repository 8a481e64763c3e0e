-- ===== src/Filesystem/Operations/Steady.antt =====
-- filesystem.c: what a change of one entry's place and size leaves as it was: where paths lead, and what the
-- directories hold.
use eitan_os.Base.{
  ℕ, zero, suc, ◌+◌, ◌*◌, ◌<◌, ◌≡◌, refl, sym, ap, subst, ◌∙◌, inl, inr, Bool, true, List, [], ◌∷◌,
  get_elem?, get_elem?-set_self, get_elem?-set_ne, set, Option, none, some, arith, ℕ_discrete,
}
use mathlib.Core.Option.{some-injective}
use eitan_os.Base.Faults.{◌>>=◌}
use eitan_os.Filesystem.Disk.{Disk}
use eitan_os.Filesystem.Disk.Writing.{Holds}
use eitan_os.Filesystem.Table.{FileEntry, is_file, find_root, find_root_from}
use eitan_os.Filesystem.Space.{end_sector}
use eitan_os.Filesystem.Space.Placement.{Placed, Sized}
use eitan_os.Filesystem.Space.Update.{Kept}
use eitan_os.Filesystem.Directories.{is_empty}
use eitan_os.Filesystem.Directories.Listing.{DirEntry}
use eitan_os.Filesystem.Directories.Lookup.{usable, lookup}
use eitan_os.Filesystem.Directories.Walk.{Tree, walk}
use eitan_os.Filesystem.Directories.Found.{found_inside}

-- Both entries are files, of the same type.
abbrev pub SameKind : FileEntry → FileEntry → Type 0
SameKind e f = (is_file e ≡ true) × (is_file f ≡ true) × (f.type ≡ e.type)

module _ (table : List FileEntry) (i : ℕ) (e f : FileEntry) (found : get_elem? table i ≡ some e)
    (kind : SameKind e f) where
  usable-set : (last : Bool) (j : ℕ) → usable (set table i f) last j ≡ usable table last j
  usable-set last j = elim (ℕ_discrete i j) [
    | yes same ↦
        let at = get_elem?-set_self table i f (found_inside table i e found) in
        let (file, file', type) = kind in
        subst (λ n. usable (set table i f) last n ≡ usable table last n) same
          (ground (arith, at, found, file, file', type))
    | no other ↦ ground (arith, get_elem?-set_ne table i j f other)
  ]

  lookup-set :
      (part : List ℕ) (last : Bool) (es : List DirEntry)
      → lookup (set table i f) part last es ≡ lookup table part last es
  lookup-set part last [] = refl
  lookup-set part last (e ∷ es) = ground (arith, usable-set last e.index, lookup-set part last es)

  pub walk-set :
      (tree : Tree) (j : ℕ) (parts : List (List ℕ))
      → walk (set table i f) tree j parts ≡ walk table tree j parts
  walk-set tree j [] = refl
  walk-set tree j (part ∷ parts) =
      ap (λ o. o >>= (λ n. walk (set table i f) tree n parts))
        (lookup-set part (is_empty parts) (tree j))
      ∙ onwards (lookup table part (is_empty parts) (tree j)) (λ n. walk-set tree n parts)
    where
      onwards :
          (o : Option ℕ)
          → ((n : ℕ) → walk (set table i f) tree n parts ≡ walk table tree n parts)
          → (o >>= (λ n. walk (set table i f) tree n parts))
            ≡ (o >>= (λ n. walk table tree n parts))
      onwards none step = refl
      onwards (some n) step = step n

find_root_from-set :
    (k : ℕ) (table : List FileEntry) (i : ℕ) (e f : FileEntry)
    → get_elem? table i ≡ some e
    → SameKind e f
    → find_root_from k (set table i f) ≡ find_root_from k table
unfolding find_root_from
find_root_from-set k [] i e f found kind = refl
find_root_from-set k (g ∷ table) zero e f found (file, file', type) =
    let same : g ≡ e = some-injective g e found in
    let is_g : is_file g ≡ true = ap is_file same ∙ file in
    let type_g : f.type ≡ g.type = type ∙ sym (ap (λ (e : FileEntry). e.type) same) in
    ground (arith, is_g, file', type_g)
find_root_from-set k (g ∷ table) (suc i) e f found kind =
    let rest = find_root_from-set (k + 1) table i e f found kind in ground (arith, rest)

-- A path that leads somewhere leads there in the changed table.
pub path-set :
    (table : List FileEntry) (tree : Tree) (i : ℕ) (e f : FileEntry) (parts : List (List ℕ))
    → get_elem? table i ≡ some e
    → SameKind e f
    → (find_root (set table i f) >>= (λ root. walk (set table i f) tree root parts))
      ≡ (find_root table >>= (λ root. walk table tree root parts))
path-set table tree i e f parts found kind =
    ap (λ o. o >>= (λ root. walk (set table i f) tree root parts))
      (find_root_from-set 0 table i e f found kind)
    ∙ onwards (find_root table)
  where
    onwards :
        (o : Option ℕ)
        → (o >>= (λ root. walk (set table i f) tree root parts))
          ≡ (o >>= (λ root. walk table tree root parts))
    onwards none = refl
    onwards (some root) = walk-set table i e f found kind tree root parts

-- What a file holds stays where its sectors do.
pub Holds-Kept :
    (d d' : Disk) (e : FileEntry) (bytes : List ℕ)
    → Sized d.sector_count
    → Placed d.sector_count e
    → Kept d d' e
    → Holds d e.start_sector bytes e.size
    → Holds d' e.start_sector bytes e.size
Holds-Kept d d' e bytes (low, high) placed kept held k short =
    ap some (kept (e.start_sector * 512 + k) (omega arith) (before placed)) ∙ held k short
  where
    before : Placed d.sector_count e → e.start_sector * 512 + k < end_sector e * 512
    before (inl empty) = absurd (omega (arith, empty, short))
    before (inr (from, small, inside)) = omega (arith, from, small, inside, short, high)
