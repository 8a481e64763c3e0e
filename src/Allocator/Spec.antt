-- ===== src/Allocator/Spec.antt =====
-- The heap as the list of its free blocks, in address order: what `malloc` and `free` promise on it.
pub mod Laws
pub mod Clearance
use eitan_os.Base.{
  ℕ, zero, suc, ◌+◌, ◌-◌, ◌≤◌, ◌<◌, ◌≡◌, refl, ◌⊎◌, inl, inr, Bool, true, false, Option, none, some,
  List, [], ◌∷◌, ◌==◌, leb, ltb, if◌then◌else◌, arith, Bool-cases, All,
}

-- Start address and size, header included.
abbrev pub Span : Type 0
Span = ℕ × ℕ

-- Sorted, apart from one another by at least a byte that is in use, and below `top`.
abbrev pub Spaced : ℕ → ℕ → List Span → Type 0
Spaced top lo [] = Unit
Spaced top lo ((a, s) ∷ bs) = (lo ≤ a) × (0 < s) × (a + s ≤ top) × Spaced top (suc (a + s)) bs

-- The bytes from `b` on, `n` of them, share none with the blocks.
abbrev pub Clear : ℕ → ℕ → List Span → Type 0
Clear b n bs = All (λ (a, s). (b + n ≤ a) ⊎ (a + s ≤ b)) bs

-- What a block of `s` bytes at `a` leaves free when `n` bytes are taken from its front; 24 bytes,
-- a header and one unit, are the least that is worth a block.
abbrev pub remainder : ℕ → ℕ → ℕ → List Span → List Span
remainder n a s bs = if leb 24 (s - n) then (a + n, s - n) ∷ bs else bs

abbrev pub granted : ℕ → ℕ → ℕ
granted n s = if leb 24 (s - n) then n else s

abbrev pub keep : Span → Option (Span × List Span) → Option (Span × List Span)
keep b none = none
keep b (some (got, bs)) = some (got, b ∷ bs)

-- First fit: the block that is taken, as it is handed out, and the free blocks that remain.
unfoldable pub first_fit : ℕ → List Span → Option (Span × List Span)
first_fit n [] = none
first_fit n ((a, s) ∷ bs) =
    let rest = keep (a, s) (first_fit n bs) in
    if leb n s then some ((a, granted n s), remainder n a s bs) else rest

-- A block in front of the free blocks behind it, joined with the first if they touch.
unfoldable pub join : Span → List Span → List Span
join (b, n) [] = (b, n) ∷ []
join (b, n) ((a, s) ∷ bs) = if (b + n) == a then (b, n + s) ∷ bs else (b, n) ∷ (a, s) ∷ bs

-- The block put back in its place, joined with its neighbours.
unfoldable pub give : Span → List Span → List Span
give (b, n) [] = (b, n) ∷ []
give (b, n) ((a, s) ∷ bs) =
    let later = join (a, s) (give (b, n) bs) in if ltb a b then later else join (b, n) ((a, s) ∷ bs)

unfoldable pub total : List Span → ℕ
total [] = 0
total ((a, s) ∷ bs) = s + total bs
