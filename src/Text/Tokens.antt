-- ===== src/Text/Tokens.antt =====
-- The tokens of a text are short and have no zeros, if the text is so.
use eitan_os.Base.{
  ℕ, ◌+◌, ◌≤◌, sym, subst, inl, inr, ◌==◌, if◌then◌else◌, Bool-cases, List, [], ◌∷◌, ◌++◌, All,
  All-append, length, length-append, arith,
}
use eitan_os.Text.Compare.{NonZero}
use eitan_os.Text.Split.{flush, tokens_of}

-- A part of a path: without zeros, and short enough for `strcmp`
abbrev pub IsPart : List ℕ → Type 0
IsPart part = All NonZero part × (length part ≤ 1001)

flush-IsPart :
    (bytes : List ℕ) (tokens : List (List ℕ))
    → IsPart bytes
    → All IsPart tokens
    → All IsPart (flush bytes tokens)
flush-IsPart [] tokens one ok = ok
flush-IsPart (b ∷ bytes) tokens one ok = (one, ok)

-- The tokens of a short text are parts.
pub tokens-IsPart :
    (delim : ℕ) (bytes text : List ℕ)
    → All NonZero bytes
    → All NonZero text
    → length bytes + length text ≤ 1001
    → All IsPart (tokens_of delim bytes text)
tokens-IsPart delim bytes [] held ok short = flush-IsPart bytes [] (held, omega (arith, short)) tt
tokens-IsPart delim bytes (c ∷ text) held (one, ok) short =
    let over = flush bytes (tokens_of delim [] text) in
    let on = tokens_of delim (bytes ++ c ∷ []) text in
    elim (Bool-cases (c == delim)) [
      | inl e ↦
          subst (λ b. All IsPart (if b then over else on)) (sym e)
            (flush-IsPart bytes (tokens_of delim [] text) (held, omega (arith, short))
              (tokens-IsPart delim [] text tt ok (omega (arith, short))))
      | inr e ↦
          subst (λ b. All IsPart (if b then over else on)) (sym e)
            (tokens-IsPart delim (bytes ++ c ∷ []) text
              (All-append NonZero bytes (c ∷ []) held (one, tt)) ok
              (omega (arith, short, length-append bytes (c ∷ []))))
    ]
