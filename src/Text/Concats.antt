-- ===== src/Text/Concats.antt =====
-- `strdup` and `str_concats`, in calls in which memory is left, as they take for granted.
use eitan_os.Base.{
  ℕ, ◌+◌, ◌≤◌, ◌≡◌, sym, ap, ◌∙◌, true, List, [], ◌∷◌, ◌++◌, append_assoc, append_nil, All,
  All-append, length, length-append, Option, none, some, arith,
}
use eitan_os.Base.Faults.{◌>>=◌}
use eitan_os.Text.{Length, counted, minus_one, strlen}
use eitan_os.Text.Compare.{NonZero, c_string, strlen_lem, measure_short}
use eitan_os.Text.Split.{ended}
use eitan_os.Text.Build.{copy_bytes, copy_bytes-append, str_concat, str_concat_lem}

-- `strlen(str) + 1`
abbrev pub with_zero : Length → ℕ
with_zero (counted n) = n + 1
with_zero minus_one = 0

unfoldable pub strdup : List ℕ → Option (List ℕ)
strdup str = strlen str >>= (λ len. copy_bytes (with_zero len) str)

unfoldable pub concats_loop : List ℕ → List (List ℕ) → Option (List ℕ)
concats_loop result [] = some result
concats_loop result (str ∷ strings) =
    let again : List ℕ → Option (List ℕ) = λ result. concats_loop result strings in
    str_concat true result str >>= (λ temp. temp >>= again)

unfoldable pub str_concats : List (List ℕ) → Option (List ℕ)
str_concats [] = none
str_concats (str ∷ strings) = strdup str >>= (λ result. concats_loop result strings)

-- The texts one after the other
abbrev pub run_together : List (List ℕ × List ℕ) → List ℕ
run_together [] = []
run_together ((text, behind) ∷ strings) = text ++ run_together strings

-- Strings, each a text with what is behind it in memory
abbrev pub in_memory : List (List ℕ × List ℕ) → List (List ℕ)
in_memory [] = []
in_memory ((text, behind) ∷ strings) = c_string text behind ∷ in_memory strings

abbrev pub Texts : List (List ℕ × List ℕ) → Type 0
Texts [] = Unit
Texts ((text, behind) ∷ strings) = All NonZero text × Texts strings

-- The copy of a text of at most 1001 bytes has its bytes and a zero.
pub strdup_lem :
    (text behind : List ℕ)
    → All NonZero text
    → length text ≤ 1001
    → strdup (c_string text behind) ≡ some (ended text)
unfolding strdup
strdup_lem text behind ok short =
    ap (λ o. o >>= (λ len. copy_bytes (with_zero len) (c_string text behind)))
      (strlen_lem text behind ok ∙ ap some (measure_short (length text) short))
    ∙ ap (λ n. copy_bytes n (c_string text behind)) (sym (length-append text (0 ∷ [])))
    ∙ ap (copy_bytes (length (ended text))) (sym (append_assoc text (0 ∷ []) behind))
    ∙ copy_bytes-append (ended text) behind

concats_loop-run_together :
    (text : List ℕ) (strings : List (List ℕ × List ℕ))
    → All NonZero text
    → Texts strings
    → length text + length (run_together strings) ≤ 1001
    → concats_loop (ended text) (in_memory strings) ≡ some (ended (text ++ run_together strings))
unfolding concats_loop
concats_loop-run_together text [] ok oks short = ap (λ l. some (ended l)) (sym (append_nil text))
concats_loop-run_together text ((next, behind) ∷ strings) ok (one, oks) short =
    let size = length-append next (run_together strings) in
    let both : length (text ++ next) ≡ length text + length next = length-append text next in
    ap (λ o. o >>= (λ temp. temp >>= (λ result. concats_loop result (in_memory strings))))
      (str_concat_lem true text next [] behind ok one (omega (arith, short))
        (omega (arith, size, short)))
    ∙ concats_loop-run_together (text ++ next) strings (All-append NonZero text next ok one) oks
        (omega (arith, both, size, short))
    ∙ ap (λ l. some (ended l)) (append_assoc text next (run_together strings))

-- `str_concats` of texts that have at most 1001 bytes together gives their bytes and a zero.
pub str_concats_lem :
    (text behind : List ℕ) (strings : List (List ℕ × List ℕ))
    → All NonZero text
    → Texts strings
    → length text + length (run_together strings) ≤ 1001
    → str_concats (c_string text behind ∷ in_memory strings)
      ≡ some (ended (text ++ run_together strings))
unfolding str_concats
str_concats_lem text behind strings ok oks short =
    ap (λ o. o >>= (λ result. concats_loop result (in_memory strings)))
      (strdup_lem text behind ok (omega (arith, short)))
    ∙ concats_loop-run_together text strings ok oks short
