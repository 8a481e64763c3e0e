-- ===== src/Text/Build.antt =====
-- The strings that `str_concat` and `substr` make. `str_concat` is told whether `malloc` had memory.
use eitan_os.Base.{
  ℕ, zero, suc, ◌≤◌, ◌≡◌, refl, sym, ap, ne→==, ◌∙◌, Bool, true, false, ◌==◌, not, if◌then◌else◌,
  List, [], ◌∷◌, ◌++◌, All, length, drop, set, Option, none, some, arith,
}
use eitan_os.Base.Faults.{◌>>=◌}
use eitan_os.Text.{Length, counted, minus_one, strlen}
use eitan_os.Text.Compare.{NonZero, c_string, strlen_lem, measure_short}

-- `for (int i = 0; i < len; i++) result[i] = s[i];`
unfoldable pub copy_bytes : ℕ → List ℕ → Option (List ℕ)
copy_bytes zero s = some []
copy_bytes (suc n) [] = none
copy_bytes (suc n) (c ∷ s) = copy_bytes n s >>= (λ bytes. some (c ∷ bytes))

-- The bytes that are written, by the two lengths. With -1 for the first, or for the second and 0 for the
-- first, a byte before the block is written.
pub concat_bytes : Length → Length → List ℕ → List ℕ → Option (List ℕ)
concat_bytes (counted m) (counted n) s1 s2 =
    copy_bytes m s1 >>= (λ a. copy_bytes n s2 >>= (λ b. some (a ++ b ++ 0 ∷ [])))
concat_bytes (counted (suc m)) minus_one s1 s2 = copy_bytes (suc m) s1 >>= (λ a. some (set a m 0))
concat_bytes _ _ s1 s2 = none

-- The result is a null pointer, which is the inner `none`, or a new string.
pub str_concat : Bool → List ℕ → List ℕ → Option (Option (List ℕ))
str_concat allocated s1 s2 = strlen s1 >>= (λ len1. strlen s2 >>= (λ len2.
    if not allocated
    then some none
    else concat_bytes len1 len2 s1 s2 >>= (λ bytes. some (some bytes))))

-- The loop of `substr`, from `str + start`, on what is left of the new string
unfoldable pub substr_loop : ℕ → List ℕ → List ℕ → Option (List ℕ)
substr_loop zero str new_str = some new_str
substr_loop (suc size) [] new_str = none
substr_loop (suc size) (c ∷ str) [] = none
substr_loop (suc size) (c ∷ str) (b ∷ new_str) =
    let rest = substr_loop size str new_str in
    if c == 0 then some (c ∷ new_str) else rest >>= (λ bytes. some (c ∷ bytes))

-- `block` is what the new memory holds before.
unfoldable pub substr : List ℕ → List ℕ → ℕ → ℕ → Option (List ℕ)
substr block str start size =
    substr_loop size (drop start str) block >>= (λ new_str. some (set new_str size 0))

pub copy_bytes-append :
    (text behind : List ℕ) → copy_bytes (length text) (text ++ behind) ≡ some text
unfolding copy_bytes
copy_bytes-append [] behind = refl
copy_bytes-append (c ∷ text) behind =
    ap (λ o. o >>= (λ bytes. some (c ∷ bytes))) (copy_bytes-append text behind)

-- `str_concat` of two texts of at most 1001 bytes is null if there was no memory, and otherwise the bytes of
-- the first, those of the second, and a zero.
pub str_concat_lem :
    (allocated : Bool) (s t behind behind' : List ℕ)
    → All NonZero s
    → All NonZero t
    → length s ≤ 1001
    → length t ≤ 1001
    → str_concat allocated (c_string s behind) (c_string t behind')
      ≡ some (if allocated then some (c_string (s ++ t) []) else none)
unfolding str_concat concat_bytes
str_concat_lem allocated s t behind behind' ok ok' short short' =
    let a = c_string s behind in
    let b = c_string t behind' in
    let go = λ (len1 len2 : Length).
      if not allocated
      then some none
      else concat_bytes len1 len2 a b >>= (λ bytes. some (some bytes)) in
    ap (λ o. o >>= (λ len1. strlen b >>= go len1))
      (strlen_lem s behind ok ∙ ap (λ n. some n) (measure_short (length s) short))
    ∙ ap (λ o. o >>= go (counted (length s)))
        (strlen_lem t behind' ok' ∙ ap (λ n. some n) (measure_short (length t) short'))
    ∙ finish allocated
  where
    bytes :
        concat_bytes
          (counted (length s))
          (counted (length t))
          (c_string s behind)
          (c_string t behind')
        ≡ some (c_string (s ++ t) [])
    bytes =
        ap
          (λ o. o >>= (λ a.
            copy_bytes (length t) (c_string t behind') >>= (λ b. some (a ++ b ++ 0 ∷ []))))
          (copy_bytes-append s (0 ∷ behind))
        ∙ ap (λ o. o >>= (λ b. some (s ++ b ++ 0 ∷ []))) (copy_bytes-append t (0 ∷ behind'))

    finish :
        (b : Bool)
        → (if not b
            then some none
            else concat_bytes
                (counted (length s))
                (counted (length t))
                (c_string s behind)
                (c_string t behind')
              >>= (λ bytes. some (some bytes)))
          ≡ some (if b then some (c_string (s ++ t) []) else none)
    finish true = ap (λ o. o >>= (λ bytes. some (some bytes))) bytes
    finish false = refl

-- The bytes of a text, `n` at most.
abbrev pub firsts : ℕ → List ℕ → List ℕ
firsts zero xs = []
firsts (suc n) [] = []
firsts (suc n) (x ∷ xs) = x ∷ firsts n xs

substr_loop_lem :
    (size : ℕ) (rest behind block : List ℕ)
    → All NonZero rest
    → length block ≡ suc size
    → (out garbage : List ℕ) × (substr_loop size (c_string rest behind) block ≡ some out)
      × (set out size 0 ≡ c_string (firsts size rest) garbage)
unfolding substr_loop
substr_loop_lem size rest behind [] ok len = absurd (omega (arith, len))
substr_loop_lem zero rest behind (b ∷ block) ok len = (b ∷ block, block, refl, refl)
substr_loop_lem (suc size) [] behind (b ∷ block) ok len = (0 ∷ block, set block size 0, refl, refl)
substr_loop_lem (suc size) (c ∷ rest) behind (b ∷ block) (one, ok) len =
    let (out, garbage, run, e) = substr_loop_lem size rest behind block ok (omega (arith, len)) in
    (
      c ∷ out,
      garbage,
      ap
            (λ b.
              if b
              then some (c ∷ block)
              else substr_loop size (c_string rest behind) block >>= (λ bytes. some (c ∷ bytes)))
            (ne→== c 0 one)
          ∙ ap (λ o. o >>= (λ bytes. some (c ∷ bytes))) run,
      ap (λ l. c ∷ l) e,
    )

drop_text :
    (start : ℕ) (text behind : List ℕ)
    → All NonZero text
    → start ≤ length text
    → (rest : List ℕ) × (drop start text ≡ rest)
      × All NonZero rest
      × (drop start (c_string text behind) ≡ c_string rest behind)
drop_text zero text behind ok h = (text, refl, ok, refl)
drop_text (suc start) [] behind ok h = absurd (omega (arith, h))
drop_text (suc start) (c ∷ text) behind (one, ok) h =
    drop_text start text behind ok (omega (arith, h))

-- `substr` from a place in a text, in a block of one byte more than `size`, returns a string of the text's
-- bytes from there on, `size` of them or as many as there are, whatever the block holds before and behind.
pub substr_lem :
    (block text behind : List ℕ) (start size : ℕ)
    → All NonZero text
    → start ≤ length text
    → length block ≡ suc size
    → (garbage : List ℕ) × (substr block (c_string text behind) start size
        ≡ some (c_string (firsts size (drop start text)) garbage))
unfolding substr
substr_lem block text behind start size ok h len =
    let (rest, e, ok', e') = drop_text start text behind ok h in
    let (out, garbage, run, ends_) = substr_loop_lem size rest behind block ok' len in
    let close = λ (o : Option (List ℕ)). o >>= (λ new_str. some (set new_str size 0)) in
    (
      garbage,
      ap (λ l. close (substr_loop size l block)) e'
          ∙ ap close run
          ∙ ap some ends_
          ∙ ap (λ l. some (c_string (firsts size l) garbage)) (sym e),
    )
