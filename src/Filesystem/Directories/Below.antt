-- ===== src/Filesystem/Directories/Below.antt =====
-- filesystem.c: what lies below a directory, and tables from which only that is taken.
use eitan_os.Base.{
  ◌⊎◌, ℕ, ◌≡◌, refl, sym, ap, ◌∙◌, inl, inr, true, ◌==◌, Bool-cases, List, All, All-map, All-Member,
  Member, Option-cases, subst, get_elem?, get_elem?-set_ne, set, some, arith, ℕ_discrete,
}
use mathlib.Core.Option.{some-injective}
use eitan_os.Filesystem.Table.{FileEntry, directory, is_file}
use eitan_os.Filesystem.Space.{hidden_entry}
use eitan_os.Filesystem.Directories.Listing.{DirEntry}
use eitan_os.Filesystem.Directories.Walk.{Tree}
use eitan_os.Filesystem.Directories.Fewer.{
  Fewer, Gone, Fewer-trans, Fewer-refl, Gone-Fewer, hidden-Fewer,
}

-- The directory `i` lists the place, or it lists a directory that has the place below it.
pub data Below (table : List FileEntry) (tree : Tree) : ℕ → ℕ → Type 0 where
  listed : {i : ℕ} (e : DirEntry) → Member e (tree i) → Below table tree i e.index
  within :
      {i j : ℕ} (e : DirEntry) (g : FileEntry)
      → Member e (tree i)
      → get_elem? table e.index ≡ some g
      → is_file g ≡ true
      → (g.type == directory) ≡ true
      → Below table tree e.index j
      → Below table tree i j

module _ (tree : Tree) where
  pub Below-Fewer :
      (a b : List FileEntry) (i j : ℕ) → Fewer a b → Below b tree i j → Below a tree i j
  Below-Fewer a b i j fewer (listed e m) = listed e m
  Below-Fewer a b i j fewer (within e g m at file dir below) =
      within e g m (fewer.1 e.index g at file) file dir (Below-Fewer a b e.index j fewer below)

  -- A directory that was taken has none of its files left.
  abbrev pub Closed : List FileEntry → List FileEntry → Type 0
  Closed a b =
      (j : ℕ) (g : FileEntry)
      → get_elem? a j ≡ some g
      → is_file g ≡ true
      → (g.type == directory) ≡ true
      → Gone b j
      → All (λ e. Gone b e.index) (tree j)

  -- What is not below the directory is as it was.
  abbrev pub OnlyBelow : ℕ → List FileEntry → List FileEntry → Type 0
  OnlyBelow i a b = (j : ℕ) → (get_elem? b j ≡ get_elem? a j) ⊎ Below a tree i j

  abbrev pub Swept : ℕ → List FileEntry → List FileEntry → Type 0
  Swept i a b = Fewer a b × Closed a b × OnlyBelow i a b

  pub all-Gone :
      (a b : List FileEntry) (es : List DirEntry)
      → Fewer a b
      → All (λ e. Gone a e.index) es
      → All (λ e. Gone b e.index) es
  all-Gone a b es fewer gone =
      All-map (λ e. Gone a e.index) (λ e. Gone b e.index) es (λ e h. Gone-Fewer a b e.index fewer h)
        gone

  pub Swept-refl : (i : ℕ) (a : List FileEntry) → Swept i a a
  Swept-refl i a = (
    Fewer-refl a,
    λ j g at file dir gone. absurd (ground (arith, gone g at, file)),
    λ j. inl refl,
  )

  pub Swept-trans : (i : ℕ) (a b c : List FileEntry) → Swept i a b → Swept i b c → Swept i a c
  Swept-trans i a b c (fewer, closed, only) (fewer', closed', only') = (
    Fewer-trans a b c fewer fewer',
    λ j g at file dir gone. elim (only j) [
      | inl same ↦ closed' j g (same ∙ at) file dir gone
      | inr below ↦ taken j g at file dir gone
    ],
    λ j. elim (only' j) [
      | inr below ↦ inr (Below-Fewer a b i j fewer below)
      | inl same ↦ elim (only j) [ inl before ↦ inl (same ∙ before) | inr below ↦ inr below ]
    ],
  )
    where
      taken : Closed a c
      taken j g at file dir gone = elim (Option-cases (get_elem? b j)) [
        | inl out ↦
            all-Gone b c (tree j) fewer'
              (closed j g at file dir (λ f here. absurd (ground (arith, out, here))))
        | inr (f, here) ↦ elim (Bool-cases (is_file f)) [
          | inl stays ↦
              let same = some-injective f g (sym (fewer.1 j f here stays) ∙ at) in
              closed' j f here stays (ap (λ (e : FileEntry). e.type == directory) same ∙ dir) gone
          | inr free ↦ all-Gone b c (tree j) fewer' (
              closed j g at file dir
                (λ h there. ap is_file (some-injective h f (sym there ∙ here)) ∙ free))
        ]
      ]

  -- What a directory below does is below.
  pub Swept-within :
      (i : ℕ) (a b : List FileEntry) (e : DirEntry) (g : FileEntry)
      → Member e (tree i)
      → get_elem? a e.index ≡ some g
      → is_file g ≡ true
      → (g.type == directory) ≡ true
      → Swept e.index a b
      → Swept i a b
  Swept-within i a b e g m at file dir (fewer, closed, only) = (
    fewer,
    closed,
    λ j. elim (only j) [ inl same ↦ inl same | inr below ↦ inr (within e g m at file dir below) ],
  )

  -- An entry of a directory is taken, after all of its own if it is one.
  pub Swept-hidden :
      (i : ℕ) (a : List FileEntry) (e : DirEntry) (now : FileEntry)
      → Member e (tree i)
      → get_elem? a e.index ≡ some now
      → ((now.type == directory) ≡ true → All (λ e. Gone a e.index) (tree e.index))
      → Swept i a (set a e.index (hidden_entry now))
  Swept-hidden i a e now m at emptied =
      let b = set a e.index (hidden_entry now) in
      let (fewer, gone) = hidden-Fewer a e.index now at in
      (
        fewer,
        λ j g here file dir left. elim (ℕ_discrete e.index j) [
          | yes same ↦
              let equal = some-injective g now (sym here ∙ ap (get_elem? a) (sym same) ∙ at) in
              subst (λ n. All (λ e. Gone b e.index) (tree n)) same
                (all-Gone a b (tree e.index) fewer
                  (emptied (sym (ap (λ (e : FileEntry). e.type == directory) equal) ∙ dir)))
          | no other ↦
              let stays = get_elem?-set_ne a e.index j (hidden_entry now) other ∙ here in
              absurd (ground (arith, left g stays, file))
        ],
        λ j. elim (ℕ_discrete e.index j) [
          | yes same ↦ inr (subst (Below a tree i) same (listed e m))
          | no other ↦ inl (get_elem?-set_ne a e.index j (hidden_entry now) other)
        ],
      )

  -- Where a directory's own entries are gone and no directory was taken without its files, all below is gone.
  pub below-Gone :
      (a b : List FileEntry) (i j : ℕ)
      → Fewer a b
      → Closed a b
      → All (λ e. Gone b e.index) (tree i)
      → Below a tree i j
      → Gone b j
  below-Gone a b i j fewer closed gone (listed e m) =
      All-Member (λ e. Gone b e.index) e (tree i) gone m
  below-Gone a b i j fewer closed gone (within e g m at file dir below) =
      below-Gone a b e.index j fewer closed
        (closed e.index g at file dir (All-Member (λ e. Gone b e.index) e (tree i) gone m)) below
