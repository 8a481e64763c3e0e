-- ===== src/Text.antt =====
-- util/string.c: a `char*` is the list of the bytes from it on. Reading behind the last of them is `none`.
-- Where the code allocates, the model is of the calls in which memory is left: it tests for none.
pub mod Compare
pub mod Search
pub mod Number
pub mod Split
pub mod Build
pub mod Same
pub mod Tokens
pub mod Concats
mod Examples
use eitan_os.Base.{
  ℕ, zero, suc, ◌+◌, ◌/◌, ◌%◌, Bool, true, false, ◌==◌, ◌&&◌, ◌||◌, not, ltb, if◌then◌else◌, List,
  [], ◌∷◌, ◌++◌, set, length, Option, none, some, add64,
}
use eitan_os.Base.Faults.{◌>>=◌}

-- The `int` that `strlen` returns: a count, or `-1`.
pub data Length : Type 0 where
  counted : ℕ → Length
  minus_one : Length

unfoldable pub strlen_loop : ℕ → List ℕ → Option Length
strlen_loop count [] = none
strlen_loop count (c ∷ str) =
    let rest = strlen_loop (count + 1) str in
    if c == 0 then some (counted count) else if ltb 1000 count then some minus_one else rest

abbrev pub strlen : List ℕ → Option Length
strlen str = strlen_loop 0 str

abbrev pub same_length : Length → Length → Bool
same_length (counted m) (counted n) = m == n
same_length minus_one minus_one = true
same_length _ _ = false

-- How often `for (int i = 0; i < len; i++)` runs
abbrev pub times : Length → ℕ
times (counted n) = n
times minus_one = 0

unfoldable pub strcmp_loop : ℕ → List ℕ → List ℕ → Option Bool
strcmp_loop zero s1 s2 = some true
strcmp_loop (suc n) (c1 ∷ s1) (c2 ∷ s2) =
    let rest = strcmp_loop n s1 s2 in if c1 == c2 then rest else some false
strcmp_loop (suc n) _ _ = none

unfoldable pub strcmp : List ℕ → List ℕ → Option Bool
strcmp s1 s2 = strlen s1 >>= (λ len.
    strlen s2
    >>= (λ other. if same_length len other then strcmp_loop (times len) s1 s2 else some false))

unfoldable pub strncmp : List ℕ → List ℕ → ℕ → Option Bool
strncmp s1 s2 zero = some true
strncmp (c1 ∷ s1) (c2 ∷ s2) (suc n) =
    let rest = strncmp s1 s2 n in if not (c1 == c2) || (c1 == 0) then some false else rest
strncmp _ _ (suc n) = none

-- The place of the result in the string, or `none` for a null pointer, in both searches.
unfoldable pub strchr_loop : ℕ → List ℕ → ℕ → Option (Option ℕ)
strchr_loop at [] target = none
strchr_loop at (c ∷ s) target =
    let rest = strchr_loop (at + 1) s target in
    if c == 0
    then some (if target == 0 then some at else none)
    else if c == target
    then some (some at)
    else rest

abbrev pub strchr : List ℕ → ℕ → Option (Option ℕ)
strchr s c = strchr_loop 0 s (c % 256)

unfoldable pub strrchr_loop : ℕ → Option ℕ → List ℕ → ℕ → Option (Option ℕ)
strrchr_loop at last [] c = none
strrchr_loop at last (b ∷ s) c =
    let rest = strrchr_loop (at + 1) (if b == c then some at else last) s c in
    if b == 0 then some last else rest

abbrev pub strrchr : List ℕ → ℕ → Option (Option ℕ)
strrchr s c = strrchr_loop 0 none s c

-- `while (n > 0 && ptr > buffer)`, with the place of `ptr` in the buffer
unfoldable pub digits_loop : ℕ → ℕ → List ℕ → ℕ × List ℕ
digits_loop zero n buffer = (zero, buffer)
digits_loop (suc ptr) n buffer =
    let rest = digits_loop ptr (n / 10) (set buffer ptr (n % 10 + 48)) in
    if n == 0 then (suc ptr, buffer) else rest

-- A sign is never printed, since an unsigned number is not below 0.
unfoldable pub num_to_str_no_malloc : ℕ → List ℕ → ℕ → Option (ℕ × List ℕ)
num_to_str_no_malloc num buffer zero = none
num_to_str_no_malloc num buffer (suc zero) = none
num_to_str_no_malloc num buffer (suc (suc last)) =
    let ended = set buffer (suc last) 0 in
    if num == 0 then some (last, set ended last 48) else some (digits_loop (suc last) num ended)

-- `while (*p == delim) p++;`
unfoldable pub skip_delim : ℕ → List ℕ → Option (List ℕ)
skip_delim delim [] = none
skip_delim delim (c ∷ p) =
    let rest = skip_delim delim p in if c == delim then rest else some (c ∷ p)

-- `while (*p && *p != delim) p++;` with the bytes that it passes
unfoldable pub token : ℕ → List ℕ → Option (List ℕ × List ℕ)
token delim [] = none
token delim (c ∷ p) =
    let rest = token delim p in
    if not (c == 0) && not (c == delim)
    then rest >>= (λ (bytes, q). some (c ∷ bytes, q))
    else some ([], c ∷ p)

abbrev pub ends : List ℕ → Option Bool
ends [] = none
ends (c ∷ p) = some (c == 0)

-- The first loop of `str_split`. Each round passes a byte at least, so the fuel of `str_split`, one more
-- than the bytes there are, is enough.
unfoldable pub count_loop : ℕ → ℕ → ℕ → List ℕ → Option ℕ
count_loop zero delim count p = none
count_loop (suc fuel) delim count p =
    let again = count_loop fuel delim (count + 1) in
    ends p >>= (λ over.
      if over
      then some count
      else skip_delim delim p >>= (λ q.
        ends q
        >>= (λ over. if over then some count else token delim q >>= (λ (bytes, r). again r))))

-- The second loop: the copy of a token has its bytes, of which `len` is the number, and a zero.
unfoldable pub copy_loop : ℕ → ℕ → List ℕ → Option (List (List ℕ))
copy_loop zero delim p = none
copy_loop (suc fuel) delim p =
    let again = copy_loop fuel delim in
    ends p >>= (λ over.
      if over
      then some []
      else skip_delim delim p >>= (λ q. ends q >>= (λ over.
        if over
        then some []
        else token delim q
          >>= (λ (bytes, r). again r >>= (λ tokens. some ((bytes ++ 0 ∷ []) ∷ tokens))))))

-- `*out_count` and the tokens
unfoldable pub str_split : List ℕ → ℕ → Option (ℕ × List (List ℕ))
str_split str delim =
    let fuel = suc (length str) in
    count_loop fuel delim 0 str
    >>= (λ count. copy_loop fuel delim str >>= (λ tokens. some (count, tokens)))
