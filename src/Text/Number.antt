-- ===== src/Text/Number.antt =====
-- What `num_to_str_no_malloc` leaves in the buffer, read as a decimal number.
use eitan_os.Base.{
  ℕ, zero, suc, ◌+◌, ◌-◌, ◌*◌, ◌/◌, ◌%◌, ◌^◌, ◌<◌, ◌≡◌, sym, ap, ◌∙◌, inl, inr, Bool, ◌==◌, ◌||◌,
  ltb, if◌then◌else◌, List, [], ◌∷◌, drop, set, length, length-set, drop-set, Option, none, some,
  arith, Bool-cases, ==→eq,
}
use native.Mathlib.Nat.{pow-suc}
use eitan_os.Text.{digits_loop, num_to_str_no_malloc}

-- The number that a C string of digits stands for, behind the digits read so far.
abbrev pub value : ℕ → List ℕ → Option ℕ
value n [] = none
value n (c ∷ cs) =
    if c == 0 then some n else if ltb c 48 || ltb 57 c then none else value (n * 10 + (c - 48)) cs

value-digit : (n : ℕ) (cs : List ℕ) → value (n / 10) ((n % 10 + 48) ∷ cs) ≡ value n cs
value-digit n cs =
    let e : n / 10 * 10 + (n % 10 + 48 - 48) ≡ n = omega arith in
    ground (arith, ap (λ z. value z cs) e)

abbrev pub read : ℕ × List ℕ → Option ℕ
read (at, written) = value 0 (drop at written)

digits_loop-value :
    (ptr n : ℕ) (buffer : List ℕ)
    → ptr < length buffer
    → n < 10 ^ ptr
    → read (digits_loop ptr n buffer) ≡ value n (drop ptr buffer)
unfolding digits_loop
digits_loop-value zero n buffer h small = ap (λ z. value z buffer) (omega (arith, small))
digits_loop-value (suc ptr) n buffer h small =
    let digit = n % 10 + 48 in
    let next = set buffer ptr digit in
    let pow : 10 ^ suc ptr ≡ 10 ^ ptr * 10 = pow-suc 10 ptr in
    let room = length-set buffer ptr digit in
    let more =
      digits_loop-value ptr (n / 10) next (omega (arith, h, room)) (omega (arith, small, pow))
      ∙ ap (value (n / 10)) (drop-set buffer ptr digit (omega (arith, h)))
      ∙ value-digit n (drop (suc ptr) buffer) in
    elim (Bool-cases (n == 0)) [
      | inl e ↦
          ap (λ b. read (if b then (suc ptr, buffer) else digits_loop ptr (n / 10) next)) e
          ∙ ap (λ z. value z (drop (suc ptr) buffer)) (sym (==→eq n 0 e))
      | inr e ↦
          ap (λ b. read (if b then (suc ptr, buffer) else digits_loop ptr (n / 10) next)) e ∙ more
    ]

-- A number with fewer decimal digits than the buffer has bytes is printed: the string that the result
-- points to, inside the buffer, reads back as the number.
pub value-num_to_str_no_malloc :
    (num : ℕ) (buffer : List ℕ) (size : ℕ)
    → length buffer ≡ suc size
    → 0 < size
    → num < 10 ^ size
    → (at : ℕ) × (written : List ℕ) × (num_to_str_no_malloc num buffer (suc size)
        ≡ some (at, written))
      × (value 0 (drop at written) ≡ some num)
unfolding num_to_str_no_malloc
value-num_to_str_no_malloc num buffer zero len pos small = absurd (omega (arith, pos))
value-num_to_str_no_malloc num buffer (suc last) len pos small =
    let ended = set buffer (suc last) 0 in
    let choose : Bool → Option (ℕ × List ℕ) =
      λ b. if b then some (last, set ended last 48) else some (digits_loop (suc last) num ended) in
    let room = length-set buffer (suc last) 0 in
    let at_end = drop-set buffer (suc last) 0 (omega (arith, len)) in
    elim (Bool-cases (num == 0)) [
      | inl e ↦ (
        last,
        set ended last 48,
        ap choose e,
        ap (value 0) (drop-set ended last 48 (omega (arith, room, len)))
            ∙ ap (value 0) at_end
            ∙ ap (λ z. some z) (sym (==→eq num 0 e)),
      )
      | inr e ↦ (
        (digits_loop (suc last) num ended).0,
        (digits_loop (suc last) num ended).1,
        ap choose e,
        digits_loop-value (suc last) num ended (omega (arith, room, len)) small
            ∙ ap (value num) at_end,
      )
    ]
