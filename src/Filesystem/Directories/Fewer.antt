-- ===== src/Filesystem/Directories/Fewer.antt =====
-- filesystem.c: tables from which files are taken, one entry after another.
use eitan_os.Base.{
  ℕ, ◌≡◌, refl, sym, ap, ◌∙◌, inl, inr, true, false, Bool-cases, List, length, length-set,
  get_elem?, get_elem?-set_self, get_elem?-set_ne, set, some, arith, ℕ_discrete,
}
use mathlib.Core.Option.{some-injective}
use eitan_os.Filesystem.Table.{FileEntry, is_file}
use eitan_os.Filesystem.Space.{hidden_entry}
use eitan_os.Filesystem.Directories.Found.{found_inside}

-- The files of the second table are files of the first, as they were.
abbrev pub Fewer : List FileEntry → List FileEntry → Type 0
Fewer table later =
    (length later ≡ length table)
    × ((j : ℕ) (e : FileEntry)
        → get_elem? later j ≡ some e
        → is_file e ≡ true
        → get_elem? table j ≡ some e)

-- No file is at the place.
abbrev pub Gone : List FileEntry → ℕ → Type 0
Gone table j = (e : FileEntry) → get_elem? table j ≡ some e → is_file e ≡ false

pub Fewer-trans : (a b c : List FileEntry) → Fewer a b → Fewer b c → Fewer a c
Fewer-trans a b c (same, from) (same', from') =
    (same' ∙ same, λ j e at file. from j e (from' j e at file) file)

pub Fewer-refl : (a : List FileEntry) → Fewer a a
Fewer-refl a = (refl, λ j e at file. at)

pub Gone-Fewer : (a b : List FileEntry) (j : ℕ) → Fewer a b → Gone a j → Gone b j
Gone-Fewer a b j (_, from) gone e at = elim (Bool-cases (is_file e)) [
  | inl file ↦ gone e (from j e at file)
  | inr free ↦ free
]

pub hidden-Fewer :
    (table : List FileEntry) (i : ℕ) (e : FileEntry)
    → get_elem? table i ≡ some e
    → Fewer table (set table i (hidden_entry e)) × Gone (set table i (hidden_entry e)) i
hidden-Fewer table i e found =
    let here = get_elem?-set_self table i (hidden_entry e) (found_inside table i e found) in
    let hidden : (f : FileEntry)
        → get_elem? (set table i (hidden_entry e)) i ≡ some f
        → is_file f ≡ false =
      λ f at. sym (ap is_file (some-injective (hidden_entry e) f (sym here ∙ at))) in
    (
      (
        length-set table i (hidden_entry e),
        λ j f at file. elim (ℕ_discrete i j) [
          | yes same ↦
              let free = hidden f (ap (get_elem? (set table i (hidden_entry e))) same ∙ at) in
              absurd (ground (arith, free, file))
          | no other ↦ sym (get_elem?-set_ne table i j (hidden_entry e) other) ∙ at
        ],
      ),
      hidden,
    )
