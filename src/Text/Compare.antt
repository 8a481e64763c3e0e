-- ===== src/Text/Compare.antt =====
-- Lengths and comparisons of C strings: a text without zeros, a zero, and whatever follows.
use eitan_os.Base.{
  ℕ, zero, suc, ◌+◌, ◌<◌, ◌≤◌, ◌≡◌, ◌≢◌, refl, sym, ap, ◌∙◌, inl, inr, Bool, true, false, ◌==◌, ltb,
  if◌then◌else◌, List, [], ◌∷◌, ◌++◌, All, length, Option, none, some, arith, Bool-cases, ==→eq,
  ==→ne,
}
use eitan_os.Base.Faults.{◌>>=◌}
use eitan_os.Text.{
  Length, counted, minus_one, strlen, strlen_loop, same_length, times, strcmp, strcmp_loop, strncmp,
}

abbrev pub NonZero : ℕ → Type 0
NonZero c = c ≢ 0

-- `text` as a C string
abbrev pub c_string : List ℕ → List ℕ → List ℕ
c_string text behind = text ++ 0 ∷ behind

-- What `strlen` says of a text of `n` bytes.
abbrev pub measure : ℕ → Length
measure n = if ltb 1001 n then minus_one else counted n

strlen_loop_lem :
    (count : ℕ) (text behind : List ℕ)
    → All NonZero text
    → count ≤ 1001
    → strlen_loop count (c_string text behind) ≡ some (measure (count + length text))
unfolding strlen_loop
strlen_loop_lem count [] behind ok h = ground (arith, h)
strlen_loop_lem count (c ∷ text) behind (one, ok) h = elim (Bool-cases (ltb 1000 count)) [
  | inl e ↦ ground (arith, one, h, e)
  | inr e ↦
      let more = strlen_loop_lem (count + 1) text behind ok (ground (arith, e)) in
      ground (arith, one, h, e, more)
]

-- `strlen` counts the bytes of a text before its zero, up to 1001; for a longer text it returns -1.
pub strlen_lem :
    (text behind : List ℕ)
    → All NonZero text
    → strlen (c_string text behind) ≡ some (measure (length text))
strlen_lem text behind ok =
    strlen_loop_lem 0 text behind ok (omega arith) ∙ ap (λ n. some (measure n)) (omega arith)

head_or : ℕ → List ℕ → ℕ
head_or x [] = x
head_or x (y ∷ ys) = y

tail : List ℕ → List ℕ
tail [] = []
tail (x ∷ xs) = xs

-- What a comparison is to say: whether two texts are the same.
abbrev pub Decides : Bool → Type 0 → Type 0
Decides b P = (b ≡ true → P) × (P → b ≡ true)

strcmp_loop_lem :
    (s t behind behind' : List ℕ)
    → length s ≡ length t
    → (b : Bool) × (strcmp_loop (length s) (c_string s behind) (c_string t behind') ≡ some b)
      × Decides b (s ≡ t)
unfolding strcmp_loop tail head_or
strcmp_loop_lem [] [] behind behind' len = (true, refl, (λ e. refl, λ e. refl))
strcmp_loop_lem [] (d ∷ t) behind behind' len = absurd (omega (arith, len))
strcmp_loop_lem (c ∷ s) [] behind behind' len = absurd (omega (arith, len))
strcmp_loop_lem (c ∷ s) (d ∷ t) behind behind' len =
    let (b, run, (to, from)) = strcmp_loop_lem s t behind behind' (omega (arith, len)) in
    elim (Bool-cases (c == d)) [
      | inl e ↦ (
        b,
        ap
              (λ z.
                if z
                then strcmp_loop (length s) (c_string s behind) (c_string t behind')
                else some false)
              e
            ∙ run,
        (λ h. ap (λ z. z ∷ s) (==→eq c d e) ∙ ap (λ l. d ∷ l) (to h), λ same. from (ap tail same)),
      )
      | inr e ↦ (
        false,
        ap
            (λ z.
              if z
              then strcmp_loop (length s) (c_string s behind) (c_string t behind')
              else some false)
            e,
        (λ h. absurd (ground (arith, h)), λ same. absurd (==→ne c d e (ap (head_or c) same))),
      )
    ]

pub measure_short : (n : ℕ) → n ≤ 1001 → measure n ≡ counted n
measure_short n h = ground (arith, h)

pub measure_long : (n : ℕ) → 1001 < n → measure n ≡ minus_one
measure_long n h = ground (arith, h)

abbrev compared : List ℕ → List ℕ → Length → Length → Option Bool
compared a b len other = if same_length len other then strcmp_loop (times len) a b else some false

strcmp_run :
    (a b : List ℕ) (len other : Length)
    → strlen a ≡ some len
    → strlen b ≡ some other
    → strcmp a b ≡ compared a b len other
unfolding strcmp
strcmp_run a b len other e e' =
    ap (λ r. r >>= (λ len. strlen b >>= compared a b len)) e ∙ ap (λ r. r >>= compared a b len) e'

-- `strcmp` of two texts of at most 1001 bytes returns, and says whether they are the same.
pub strcmp-Decides :
    (s t behind behind' : List ℕ)
    → All NonZero s
    → All NonZero t
    → length s ≤ 1001
    → length t ≤ 1001
    → (b : Bool) × (strcmp (c_string s behind) (c_string t behind') ≡ some b) × Decides b (s ≡ t)
strcmp-Decides s t behind behind' ok ok' short short' =
    let a = c_string s behind in
    let b = c_string t behind' in
    let run =
      strcmp_run a b (counted (length s)) (counted (length t))
        (strlen_lem s behind ok ∙ ap (λ n. some n) (measure_short (length s) short))
        (strlen_lem t behind' ok' ∙ ap (λ n. some n) (measure_short (length t) short')) in
    elim (Bool-cases (length s == length t)) [
      | inl e ↦
          let (same, loop, decides) = strcmp_loop_lem s t behind behind' (==→eq _ _ e) in
          (
            same,
            run ∙ ap (λ z. if z then strcmp_loop (length s) a b else some false) e ∙ loop,
            decides,
          )
      | inr e ↦ (
        false,
        run ∙ ap (λ z. if z then strcmp_loop (length s) a b else some false) e,
        (
          λ h. absurd (ground (arith, h)),
          λ same. absurd (==→ne (length s) (length t) e (ap length same)),
        ),
      )
    ]

-- Two texts of more than 1001 bytes are always the same for `strcmp`.
pub strcmp_long :
    (s t behind behind' : List ℕ)
    → All NonZero s
    → All NonZero t
    → 1001 < length s
    → 1001 < length t
    → strcmp (c_string s behind) (c_string t behind') ≡ some true
unfolding strcmp_loop
strcmp_long s t behind behind' ok ok' long long' =
    strcmp_run (c_string s behind) (c_string t behind') minus_one minus_one
      (strlen_lem s behind ok ∙ ap (λ n. some n) (measure_long (length s) long))
      (strlen_lem t behind' ok' ∙ ap (λ n. some n) (measure_long (length t) long'))

-- The first `n` bytes of a text, if it has so many.
abbrev pub prefix : ℕ → List ℕ → Option (List ℕ)
prefix zero xs = some []
prefix (suc n) [] = none
prefix (suc n) (x ∷ xs) = prefix n xs >>= (λ ys. some (x ∷ ys))

none-some : {ys : List ℕ} → none ≡ some ys → ⊥
none-some e = ground (arith, e)

some_or : List ℕ → Option (List ℕ) → List ℕ
some_or xs none = xs
some_or xs (some ys) = ys

prefix_parts :
    (c : ℕ) (o : Option (List ℕ)) (zs : List ℕ)
    → (o >>= (λ ys. some (c ∷ ys))) ≡ some zs
    → (ys : List ℕ) × (o ≡ some ys) × (c ∷ ys ≡ zs)
unfolding some_or
prefix_parts c none zs e = absurd (none-some e)
prefix_parts c (some ys) zs e = (ys, refl, ap (some_or []) e)

-- `strncmp` of two texts returns, and says whether both begin with the same `n` bytes.
pub strncmp-Decides :
    (s t behind behind' : List ℕ) (n : ℕ)
    → All NonZero s
    → All NonZero t
    → (b : Bool) × (strncmp (c_string s behind) (c_string t behind') n ≡ some b)
      × Decides b ((ys : List ℕ) × (prefix n s ≡ some ys) × (prefix n t ≡ some ys))
unfolding strncmp tail head_or
strncmp-Decides s t behind behind' zero ok ok' = (true, refl, (λ e. ([], refl, refl), λ e. refl))
strncmp-Decides [] [] behind behind' (suc n) ok ok' =
    (false, refl, (λ e. absurd (ground (arith, e)), λ (ys, p, q). absurd (none-some p)))
strncmp-Decides [] (d ∷ t) behind behind' (suc n) ok ok' =
    (false, ground arith, (λ e. absurd (ground (arith, e)), λ (ys, p, q). absurd (none-some p)))
strncmp-Decides (c ∷ s) [] behind behind' (suc n) (one, ok) ok' = (
  false,
  ground (arith, one),
  (λ e. absurd (ground (arith, e)), λ (ys, p, q). absurd (none-some q)),
)
strncmp-Decides (c ∷ s) (d ∷ t) behind behind' (suc n) (one, ok) (one', ok') =
    let (b, run, (to, from)) = strncmp-Decides s t behind behind' n ok ok' in
    elim (Bool-cases (c == d)) [
      | inl e ↦
          let same = ==→eq c d e in
          (
            b,
            ground (arith, one, e, run),
            (
              λ h.
                  let (ys, p, q) = to h in
                  (
                    c ∷ ys,
                    ap (λ o. o >>= (λ ys. some (c ∷ ys))) p,
                    ap (λ o. o >>= (λ ys. some (d ∷ ys))) q ∙ ap (λ z. some (z ∷ ys)) (sym same),
                  ),
              λ (zs, p, q).
                  let (ys, p', e') = prefix_parts c (prefix n s) zs p in
                  let (xs, q', e'') = prefix_parts d (prefix n t) zs q in
                  from (ys, p', q' ∙ ap (λ l. some (tail l)) (e'' ∙ sym e')),
            ),
          )
      | inr e ↦ (
        false,
        ground (arith, e),
        (
          λ h. absurd (ground (arith, h)),
          λ (zs, p, q).
              let (ys, p', e') = prefix_parts c (prefix n s) zs p in
              let (xs, q', e'') = prefix_parts d (prefix n t) zs q in
              absurd (==→ne c d e (ap (head_or c) (e' ∙ sym e''))),
        ),
      )
    ]
