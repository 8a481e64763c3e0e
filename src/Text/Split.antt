-- ===== src/Text/Split.antt =====
-- `str_split` against a reference that reads the text once and keeps the token it is in.
use eitan_os.Base.{
  ◌⊎◌, ℕ, zero, suc, ◌+◌, ◌<◌, ◌≤◌, ◌≡◌, ◌≢◌, refl, sym, ap, ◌∙◌, inl, inr, true, ◌==◌,
  if◌then◌else◌, List, [], ◌∷◌, ◌++◌, map, All, length, length-append, append_assoc, append_nil,
  Option, some, arith, Bool-cases, ==→ne, ne→==,
}
use eitan_os.Base.Faults.{◌>>=◌}
use eitan_os.Text.{ends, skip_delim, token, count_loop, copy_loop, str_split}
use eitan_os.Text.Compare.{NonZero, c_string}

-- The token read so far is over.
abbrev pub flush : List ℕ → List (List ℕ) → List (List ℕ)
flush [] tokens = tokens
flush (b ∷ bytes) tokens = (b ∷ bytes) ∷ tokens

-- The tokens of a text, where `bytes` is what was read of the first.
abbrev pub tokens_of : ℕ → List ℕ → List ℕ → List (List ℕ)
tokens_of delim bytes [] = flush bytes []
tokens_of delim bytes (c ∷ text) =
    let over = flush bytes (tokens_of delim [] text) in
    let on = tokens_of delim (bytes ++ c ∷ []) text in if c == delim then over else on

abbrev pub ended : List ℕ → List ℕ
ended bytes = bytes ++ 0 ∷ []

-- The text does not begin with a delimiter.
abbrev Begun : ℕ → List ℕ → Type 0
Begun delim [] = Unit
Begun delim (c ∷ text) = c ≢ delim

skipped :
    (delim : ℕ) (text behind : List ℕ)
    → All NonZero text
    → delim ≢ 0
    → (rest : List ℕ) × (skip_delim delim (c_string text behind) ≡ some (c_string rest behind))
      × (tokens_of delim [] text ≡ tokens_of delim [] rest)
      × (length rest ≤ length text)
      × All NonZero rest
      × Begun delim rest
unfolding skip_delim
skipped delim [] behind ok nonzero = ([], ground (arith, nonzero), refl, omega arith, tt, tt)
skipped delim (c ∷ text) behind (one, ok) nonzero =
    let (rest, run, same, short, ok', begun) = skipped delim text behind ok nonzero in
    let whole = c_string (c ∷ text) behind in
    elim (Bool-cases (c == delim)) [
      | inl e ↦ (
        rest,
        ap (λ b. if b then skip_delim delim (c_string text behind) else some whole) e ∙ run,
        ap (λ b. if b then tokens_of delim [] text else tokens_of delim (c ∷ []) text) e ∙ same,
        omega (arith, short),
        ok',
        begun,
      )
      | inr e ↦ (
        c ∷ text,
        ap (λ b. if b then skip_delim delim (c_string text behind) else some whole) e,
        refl,
        omega arith,
        (one, ok),
        ==→ne c delim e,
      )
    ]

taken :
    (delim : ℕ) (bytes text behind : List ℕ)
    → All NonZero text
    → (more rest : List ℕ) × (token delim (c_string text behind)
        ≡ some (more, c_string rest behind))
      × (tokens_of delim bytes text ≡ flush (bytes ++ more) (tokens_of delim [] rest))
      × (length more + length rest ≡ length text)
      × All NonZero rest
unfolding token
taken delim bytes [] behind ok =
    ([], [], refl, ap (λ l. flush l []) (sym (append_nil bytes)), refl, tt)
taken delim bytes (c ∷ text) behind (one, ok) =
    let (more, rest, run, same, len, ok') = taken delim (bytes ++ c ∷ []) text behind ok in
    elim (Bool-cases (c == delim)) [
      | inl e ↦ (
        [],
        c ∷ text,
        ground (arith, one, e),
        over bytes e
            ∙ ap (flush bytes) (sym (over [] e))
            ∙ ap (λ l. flush l (tokens_of delim [] (c ∷ text))) (sym (append_nil bytes)),
        omega arith,
        (one, ok),
      )
      | inr e ↦ (
        c ∷ more,
        rest,
        ground (arith, one, e, run),
        ap
              (λ b.
                if b
                then flush bytes (tokens_of delim [] text)
                else tokens_of delim (bytes ++ c ∷ []) text)
              e
            ∙ same
            ∙ ap (λ l. flush l (tokens_of delim [] rest)) (append_assoc bytes (c ∷ []) more),
        omega (arith, len),
        ok',
      )
    ]
  where
    over :
        (bs : List ℕ)
        → (c == delim) ≡ true
        → tokens_of delim bs (c ∷ text) ≡ flush bs (tokens_of delim [] text)
    over bs e =
        ap
          (λ b.
            if b then flush bs (tokens_of delim [] text) else tokens_of delim (bs ++ c ∷ []) text)
          e

abbrev pub round : {B : Type 0} → ℕ → B → (List ℕ → List ℕ → Option B) → List ℕ → Option B
round delim stop go p = ends p >>= (λ over.
    if over
    then some stop
    else skip_delim delim p >>= (λ q.
      ends q
      >>= (λ over. if over then some stop else token delim q >>= (λ (bytes, r). go bytes r))))

-- A round of either loop: there is no token, and it stops, or it goes on behind the first.
abbrev pub OneToken : {B : Type 0} → ℕ → B → (List ℕ → List ℕ → Option B) → List ℕ → List ℕ → Type 0
OneToken delim stop go text behind =
    ((tokens_of delim [] text ≡ []) × (round delim stop go (c_string text behind) ≡ some stop))
    ⊎ ((bytes rest : List ℕ) × (tokens_of delim [] text ≡ bytes ∷ tokens_of delim [] rest)
        × (length rest < length text)
        × All NonZero rest
        × (round delim stop go (c_string text behind) ≡ go bytes (c_string rest behind)))

first_byte :
    (delim d : ℕ) (rest behind more left : List ℕ)
    → NonZero d
    → d ≢ delim
    → token delim (c_string rest behind) ≡ some (more, c_string left behind)
    → token delim (c_string (d ∷ rest) behind) ≡ some (d ∷ more, c_string left behind)
unfolding token
first_byte delim d rest behind more left one begun run = ground (arith, one, begun, run)

pub round-OneToken :
    {B : Type 0} (delim : ℕ) (stop : B) (go : List ℕ → List ℕ → Option B) (text behind : List ℕ)
    → All NonZero text
    → delim ≢ 0
    → OneToken delim stop go text behind
unfolding token
round-OneToken delim stop go [] behind ok nonzero = inl (refl, refl)
round-OneToken {B} delim stop go (c ∷ text) behind (one, ok) nonzero =
    let (rest, run, same, short, ok', begun) = skipped delim (c ∷ text) behind (one, ok) nonzero in
    let start = ap (λ b. if b then some stop else after) (ne→== c 0 one) ∙ ap (λ o. o >>= on) run in
    cases rest start same short ok' begun
  where
    on : List ℕ → Option B
    on q =
        ends q
        >>= (λ over. if over then some stop else token delim q >>= (λ (bytes, r). go bytes r))

    after : Option B
    after = skip_delim delim (c_string (c ∷ text) behind) >>= on

    cases :
        (rest : List ℕ)
        → round delim stop go (c_string (c ∷ text) behind) ≡ on (c_string rest behind)
        → tokens_of delim [] (c ∷ text) ≡ tokens_of delim [] rest
        → length rest ≤ suc (length text)
        → All NonZero rest
        → Begun delim rest
        → OneToken delim stop go (c ∷ text) behind
    cases [] start same short ok' begun = inl (same, start)
    cases (d ∷ rest) start same short (one', ok') begun =
        let (more, left, run, e, len, ok'') = taken delim (d ∷ []) rest behind ok' in
        let passed = ne→== d delim begun in
        inr (
          d ∷ more,
          left,
          same
              ∙ ap (λ b. if b then tokens_of delim [] rest else tokens_of delim (d ∷ []) rest)
                  passed
              ∙ e,
          omega (arith, len, short),
          ok'',
          start
              ∙ ap
                  (λ b.
                    if b
                    then some stop
                    else token delim (c_string (d ∷ rest) behind) >>= (λ (bytes, r). go bytes r))
                  (ne→== d 0 one')
              ∙ ap (λ o. o >>= (λ (bytes, r). go bytes r))
                  (first_byte delim d rest behind more left one' begun run),
        )

count_lem :
    (fuel delim count : ℕ) (text behind : List ℕ)
    → All NonZero text
    → delim ≢ 0
    → length text < fuel
    → count_loop fuel delim count (c_string text behind)
      ≡ some (count + length (tokens_of delim [] text))
unfolding count_loop
count_lem zero delim count text behind ok nonzero f = elim f [ ]
count_lem (suc fuel) delim count text behind ok nonzero f =
    elim (round-OneToken delim count (λ bytes. count_loop fuel delim (count + 1)) text behind ok
      nonzero) [
        | inl (none_left, run) ↦ run ∙ ap some (omega (arith, ap length none_left))
        | inr (bytes, rest, same, shorter, ok', run) ↦
            run
            ∙ count_lem fuel delim (count + 1) rest behind ok' nonzero (omega (arith, shorter, f))
            ∙ ap some (omega (arith, ap length same))
      ]

copy_lem :
    (fuel delim : ℕ) (text behind : List ℕ)
    → All NonZero text
    → delim ≢ 0
    → length text < fuel
    → copy_loop fuel delim (c_string text behind) ≡ some (map ended (tokens_of delim [] text))
unfolding copy_loop
copy_lem zero delim text behind ok nonzero f = elim f [ ]
copy_lem (suc fuel) delim text behind ok nonzero f =
    elim (round-OneToken delim []
      (λ bytes r. copy_loop fuel delim r >>= (λ tokens. some (ended bytes ∷ tokens))) text behind ok
      nonzero) [
        | inl (none_left, run) ↦ run ∙ ap (λ ts. some (map ended ts)) (sym none_left)
        | inr (bytes, rest, same, shorter, ok', run) ↦
            run
            ∙ ap (λ o. o >>= (λ tokens. some (ended bytes ∷ tokens)))
                (copy_lem fuel delim rest behind ok' nonzero (omega (arith, shorter, f)))
            ∙ ap (λ ts. some (map ended ts)) (sym same)
      ]

-- On a text without zeros and a delimiter that is not zero, `str_split` returns: its tokens are those of
-- the reference, each with a zero behind it, and `out_count` is their number.
pub str_split_lem :
    (text behind : List ℕ) (delim : ℕ)
    → All NonZero text
    → delim ≢ 0
    → str_split (c_string text behind) delim
      ≡ some (length (tokens_of delim [] text), map ended (tokens_of delim [] text))
unfolding str_split
str_split_lem text behind delim ok nonzero =
    let fuel = suc (length (c_string text behind)) in
    let enough : length text < fuel = omega (arith, length-append text (0 ∷ behind)) in
    ap
      (λ o. o >>= (λ count.
        copy_loop fuel delim (c_string text behind) >>= (λ tokens. some (count, tokens))))
      (count_lem fuel delim 0 text behind ok nonzero enough)
    ∙ ap (λ o. o >>= (λ tokens. some (0 + length (tokens_of delim [] text), tokens)))
        (copy_lem fuel delim text behind ok nonzero enough)
    ∙ ap (λ n. some (n, map ended (tokens_of delim [] text))) (omega arith)
