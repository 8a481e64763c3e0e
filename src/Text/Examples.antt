-- ===== src/Text/Examples.antt =====
-- Concrete strings.
use eitan_os.Base.{
  ℕ, zero, suc, ◌≡◌, refl, Bool, List, [], ◌∷◌, map, All, length, drop, replicate, some, arith,
}
use eitan_os.Text.{strcmp, num_to_str_no_malloc, str_split}
use eitan_os.Text.Compare.{NonZero, c_string, Decides, strcmp-Decides}
use eitan_os.Text.Number.{value, value-num_to_str_no_malloc}
use eitan_os.Text.Split.{tokens_of, ended, str_split_lem}

-- `/bin//c`
abbrev path : List ℕ
path = 47 ∷ 98 ∷ 105 ∷ 110 ∷ 47 ∷ 47 ∷ 99 ∷ []

nonzero : (n : ℕ) → NonZero (suc n)
nonzero n e = absurd (omega (arith, e))

path-NonZero : All NonZero path
path-NonZero = (
  nonzero 46,
  (nonzero 97, (nonzero 104, (nonzero 109, (nonzero 46, (nonzero 46, (nonzero 98, tt)))))),
)

abbrev long : ℕ → List ℕ
long c = replicate {A = ℕ} 1002 c

replicate-NonZero : (n c : ℕ) → All NonZero (replicate {A = ℕ} n (suc c))
replicate-NonZero zero c = tt
replicate-NonZero (suc n) c = (nonzero c, replicate-NonZero n c)

str_split_lem_example :
    str_split (c_string path (7 ∷ [])) 47
    ≡ some (length (tokens_of 47 [] path), map ended (tokens_of 47 [] path))
str_split_lem_example = str_split_lem path (7 ∷ []) 47 path-NonZero (nonzero 46)

tokens_of_path : tokens_of 47 [] path ≡ (98 ∷ 105 ∷ 110 ∷ []) ∷ (99 ∷ []) ∷ []
tokens_of_path = refl

strcmp-Decides_example :
    (b : Bool) × (strcmp (c_string path []) (c_string (97 ∷ []) []) ≡ some b)
    × Decides b (path ≡ 97 ∷ [])
strcmp-Decides_example =
    strcmp-Decides path (97 ∷ []) [] [] path-NonZero (nonzero 96, tt) (omega arith) (omega arith)

value-num_to_str_no_malloc_example :
    (at : ℕ) × (written : List ℕ) × (num_to_str_no_malloc 1048576 (replicate {A = ℕ} 100 0) 100
      ≡ some (at, written))
    × (value 0 (drop at written) ≡ some 1048576)
value-num_to_str_no_malloc_example =
    value-num_to_str_no_malloc 1048576 (replicate {A = ℕ} 100 0) 99 refl (omega arith) (omega arith)
