-- ===== src/Filesystem/Space/Free.antt =====
-- filesystem.c: `find_space_for_file` gives only sectors that no file has, and gives some if there are any.
use eitan_os.Base.{
  ℕ, ◌+◌, ◌≤◌, ◌<◌, ◌≡◌, sym, subst, inl, inr, if◌then◌else◌, Bool-cases, List, [], ◌∷◌, All,
  All-map, none, some, arith, All-Reordered, Reordered-back,
}
use eitan_os.Filesystem.Table.{FileEntry, is_file}
use eitan_os.Filesystem.Space.{sectors_needed, first_end, find_space_for_file}
use eitan_os.Filesystem.Space.Sorting.{collect, sort}
use eitan_os.Filesystem.Space.Order.{Pairwise, sort-Reordered, sort-Rising}
use eitan_os.Filesystem.Space.Placement.{
  Placed, Apart, Apart-sym, Clear, Sized, OfFiles, From, FilesApart, WellPlaced,
}
use eitan_os.Filesystem.Space.Gaps.{gap_loop-Free, gap_loop-none}

collect-All :
    (P : FileEntry → Type 0) (table : List FileEntry)
    → All (OfFiles P) table
    → All P (collect table)
unfolding collect
collect-All P [] h = tt
collect-All P (e ∷ table) (one, h) = elim (Bool-cases (is_file e)) [
  | inl file ↦
      subst (λ b. All P (if b then e ∷ collect table else collect table)) (sym file)
        (one file, collect-All P table h)
  | inr other ↦
      subst (λ b. All P (if b then e ∷ collect table else collect table)) (sym other)
        (collect-All P table h)
]

collect_all :
    (P : FileEntry → Type 0) (table : List FileEntry)
    → All P (collect table)
    → All (OfFiles P) table
unfolding collect
collect_all P [] h = tt
collect_all P (e ∷ table) h = elim (Bool-cases (is_file e)) [
  | inl file ↦
      let (one, rest) =
        subst (λ b. All P (if b then e ∷ collect table else collect table)) file h in
      (λ _. one, collect_all P table rest)
  | inr other ↦ (
    λ file. absurd (ground (arith, file, other)),
    collect_all P table
        (subst (λ b. All P (if b then e ∷ collect table else collect table)) other h),
  )
]

collect-Pairwise :
    (table : List FileEntry) → Pairwise FilesApart table → Pairwise Apart (collect table)
unfolding collect
collect-Pairwise [] h = tt
collect-Pairwise (e ∷ table) (one, h) = elim (Bool-cases (is_file e)) [
  | inl file ↦
      subst (λ b. Pairwise Apart (if b then e ∷ collect table else collect table)) (sym file)
        (
          collect-All (Apart e) table
              (All-map (FilesApart e) (OfFiles (Apart e)) table (λ f apart. apart file) one),
          collect-Pairwise table h,
        )
  | inr other ↦
      subst (λ b. Pairwise Apart (if b then e ∷ collect table else collect table)) (sym other)
        (collect-Pairwise table h)
]

Placed-From : (sector_count : ℕ) (e : FileEntry) → Placed sector_count e → From first_end e
Placed-From sector_count e (inl h) = inl h
Placed-From sector_count e (inr h) = inr h.0

module _ (sector_count : ℕ) (table : List FileEntry) (sized : Sized sector_count)
    (well : WellPlaced sector_count table) where
  sort-Placed : All (Placed sector_count) (sort (collect table))
  sort-Placed =
      All-Reordered (Placed sector_count) (Reordered-back (sort-Reordered (collect table)))
        (collect-All (Placed sector_count) table well.0)

  back : (P : FileEntry → Type 0) → All P (sort (collect table)) → All (OfFiles P) table
  back P h = collect_all P table (All-Reordered P (sort-Reordered (collect table)) h)

  -- If the files of the table are placed and apart, the sectors found are behind the first 641 and before the
  -- last one of the disk, and no file has any of them.
  pub find_space_for_file-Clear :
      (file_size s : ℕ)
      → find_space_for_file sector_count table file_size ≡ some s
      → (first_end ≤ s)
        × (s + sectors_needed file_size < sector_count)
        × All (OfFiles (Clear s (sectors_needed file_size))) table
  unfolding find_space_for_file
  find_space_for_file-Clear file_size s run =
      let rising = sort-Rising Apart Apart-sym (collect table) (collect-Pairwise table well.1) in
      let from =
        All-map (Placed sector_count) (From first_end) (sort (collect table))
          (Placed-From sector_count) sort-Placed in
      let (low, high, clear) =
        gap_loop-Free sector_count (sectors_needed file_size) sized first_end s
          (sort (collect table)) sized.0 sort-Placed rising from run in
      (low, high, back (Clear s (sectors_needed file_size)) clear)

  -- If the search fails on such a table, then wherever as many sectors as the file needs lie between the first
  -- 641 and the last one of the disk, some file has one of them.
  pub find_space_for_file-none :
      (file_size s : ℕ)
      → find_space_for_file sector_count table file_size ≡ none
      → first_end ≤ s
      → s + sectors_needed file_size < sector_count
      → ¬ All (OfFiles (Clear s (sectors_needed file_size))) table
  unfolding find_space_for_file
  find_space_for_file-none file_size s run low high clear =
      gap_loop-none sector_count (sectors_needed file_size) sized first_end s (sort (collect table))
        sized.0 sort-Placed low high
        (All-Reordered (Clear s (sectors_needed file_size))
          (Reordered-back (sort-Reordered (collect table)))
          (collect-All (Clear s (sectors_needed file_size)) table clear))
        run
