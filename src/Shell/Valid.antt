-- ===== src/Shell/Valid.antt =====
-- programs/shell/c.c and filesystem.c: a path that the shell made canonical is one that the file system takes.
use eitan_os.Base.{
  ℕ, suc, ◌+◌, ◌≤◌, ◌≡◌, refl, sym, ap, subst, ◌∙◌, inl, inr, true, false, ◌==◌, ==→ne, ltb,
  if◌then◌else◌, Bool-cases, List, [], ◌∷◌, ◌++◌, append_nil, All, All-append, length, some, arith,
}
use eitan_os.Text.Compare.{NonZero, c_string}
use eitan_os.Text.Search.{Other}
use eitan_os.Text.Split.{flush, tokens_of}
use eitan_os.Text.Tokens.{IsPart, tokens-IsPart}
use eitan_os.Filesystem.Paths.{is_valid_path}
use eitan_os.Filesystem.Paths.Validity.{are_names, is_path, is_valid_path-is_path}
use eitan_os.Shell.{slash, parse_path}
use eitan_os.Shell.Names.{steps}
use eitan_os.Shell.Canonical.{joined}
use eitan_os.Shell.Parse.{
  bottom_up-All, steps-All, names_left, canonical, canonical-length, parse_path-canonical,
}

-- A name is not empty and has no slash.
abbrev pub IsName : List ℕ → Type 0
IsName name = All (Other slash) name × (1 ≤ length name)

-- The name fits the file system's limit.
abbrev pub Fits : List ℕ → Type 0
Fits name = length name ≤ 60

flush-IsName :
    (bytes : List ℕ) (tokens : List (List ℕ))
    → All (Other slash) bytes
    → All IsName tokens
    → All IsName (flush bytes tokens)
flush-IsName [] tokens held ok = ok
flush-IsName (b ∷ bytes) tokens held ok = ((held, omega arith), ok)

tokens-IsName :
    (bytes text : List ℕ) → All (Other slash) bytes → All IsName (tokens_of slash bytes text)
tokens-IsName bytes [] held = flush-IsName bytes [] held tt
tokens-IsName bytes (c ∷ text) held =
    let over = flush bytes (tokens_of slash [] text) in
    let on = tokens_of slash (bytes ++ c ∷ []) text in
    elim (Bool-cases (c == slash)) [
      | inl e ↦
          subst (λ b. All IsName (if b then over else on)) (sym e)
            (flush-IsName bytes (tokens_of slash [] text) held (tokens-IsName [] text tt))
      | inr e ↦
          subst (λ b. All IsName (if b then over else on)) (sym e)
            (tokens-IsName (bytes ++ c ∷ []) text
              (All-append (Other slash) bytes (c ∷ []) held (==→ne c slash e, tt)))
    ]

-- Reading a name that fits
read_name :
    (n : ℕ) (name rest : List ℕ)
    → All (Other slash) name
    → n + length name ≤ 60
    → are_names n (name ++ rest) ≡ are_names (n + length name) rest
read_name n [] rest other fits = ap (λ m. are_names m rest) {x = n} {y = n + 0} (omega arith)
read_name n (c ∷ name) rest (one, other) fits =
    let next = read_name (n + 1) name rest other (omega (arith, fits)) in
    let place : n + 1 + length name ≡ n + suc (length name) = omega arith in
    let differs : (c == slash) ≡ false = ground (arith, one) in
    let inside : ltb 60 (n + 1) ≡ false = ground (arith, fits) in
    ground (arith, differs, inside, next, place)

are_names-joined :
    (name : List ℕ) (names : List (List ℕ))
    → All IsName (name ∷ names)
    → All Fits (name ∷ names)
    → are_names 0 (joined (name ∷ names)) ≡ true
are_names-joined name [] ((other, full), _) (fits, _) =
    ap (are_names 0) (sym (append_nil name))
    ∙ (read_name 0 name [] other (omega (arith, fits)) ∙ ground (arith, full))
are_names-joined name (next ∷ names) ((other, full), ok) (fits, all_fit) =
    let rest = are_names-joined next names ok all_fit in
    read_name 0 name (slash ∷ joined (next ∷ names)) other (omega (arith, fits))
    ∙ ground (arith, full, rest)

canonical-is_path :
    (names : List (List ℕ))
    → All IsName names
    → All Fits names
    → is_path (slash ∷ joined names) ≡ true
canonical-is_path [] ok fits = refl
canonical-is_path (name ∷ names) ok fits =
    begun (joined (name ∷ names)) (are_names-joined name names ok fits)
  where
    begun : (text : List ℕ) → are_names 0 text ≡ true → is_path (slash ∷ text) ≡ true
    begun [] h = refl
    begun (c ∷ text) h = h

joined-NonZero : (names : List (List ℕ)) → All IsPart names → All NonZero (joined names)
joined-NonZero [] ok = tt
joined-NonZero (name ∷ []) (one, ok) = one.0
joined-NonZero (name ∷ other ∷ names) (one, ok) =
    All-append NonZero name (slash ∷ joined (other ∷ names)) one.0
      (omega arith, joined-NonZero (other ∷ names) ok)

-- The path that `parse_path` leaves of a path of 2 to 1001 bytes that begins with a slash is valid for the file
-- system, if the names left have at most 60 bytes each.
pub parse_path-is_valid_path :
    (text behind : List ℕ)
    → All NonZero text
    → 1 ≤ length text
    → length text ≤ 1000
    → All Fits (names_left (slash ∷ text))
    → (path : List ℕ) × (parse_path (c_string (slash ∷ text) behind) ≡ some path)
      × (is_valid_path path ≡ some true)
parse_path-is_valid_path text behind ok full short fits =
    let whole = slash ∷ text in
    let tokens = tokens_of slash [] whole in
    let names = names_left whole in
    let parts = tokens-IsPart slash [] whole tt (omega arith, ok) (omega (arith, short)) in
    let named =
      bottom_up-All IsName (steps [] tokens) []
        (steps-All IsName [] tokens tt (tokens-IsName [] whole tt)) tt in
    let are_parts =
      bottom_up-All IsPart (steps [] tokens) [] (steps-All IsPart [] tokens tt parts) tt in
    let (behind', run) = parse_path-canonical text behind ok full short in
    let bound = canonical-length text full in
    let valid =
      is_valid_path-is_path (canonical whole) behind' (omega arith, joined-NonZero names are_parts)
        (omega arith) (omega (arith, bound, short)) in
    (c_string (canonical whole) behind', run, valid ∙ ap some (canonical-is_path names named fits))
