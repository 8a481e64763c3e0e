-- ===== src/Shell/Command/Words.antt =====
-- programs/shell/c.c: the words of a command line, and the loops of `parse_command_line` over one of them.
use eitan_os.Base.{
  ◌⊎◌, ℕ, suc, ◌+◌, ◌≤◌, ◌≡◌, refl, sym, ap, ◌∙◌, inl, inr, Bool, true, false, ◌==◌, ◌&&◌, ◌||◌,
  ltb, ==→eq, ==→ne, not, if◌then◌else◌, Bool-cases, List, [], ◌∷◌, ◌++◌, append_assoc, append_nil,
  All, length, set, none, some, arith,
}
use eitan_os.Base.Faults.{◌>>=◌}
use eitan_os.Text.{strncmp}
use eitan_os.Text.Compare.{NonZero, c_string}
use eitan_os.Text.Search.{Other}
use eitan_os.Text.Split.{ended}
use eitan_os.Text.Build.{substr, substr_loop}
use eitan_os.Shell.Command.{Command, no_command, space, choose, size_loop, arg_loop}

-- The bytes before the first space, and those behind it
abbrev pub word : List ℕ → List ℕ
word [] = []
word (c ∷ text) = if c == space then [] else c ∷ word text

abbrev pub behind_word : List ℕ → List ℕ
behind_word [] = []
behind_word (c ∷ text) = if c == space then text else behind_word text

-- What the spaces part, `piece` being what was read of the first; two spaces in a row part off nothing.
abbrev pub pieces : List ℕ → List ℕ → List (List ℕ)
pieces piece [] = piece ∷ []
pieces piece (c ∷ text) =
    if c == space then piece ∷ pieces [] text else pieces (piece ++ c ∷ []) text

-- `name` begins with `start`.
abbrev pub begins : List ℕ → List ℕ → Bool
begins [] name = true
begins (c ∷ start) [] = false
begins (c ∷ start) (d ∷ name) = (c == d) && begins start name

-- The first command whose name begins with the word
abbrev pub command_of : List (List ℕ × Command) → List ℕ → Command
command_of [] start = no_command
command_of ((name, chosen) ∷ more) start =
    if begins start name then chosen else command_of more start

-- A text is one word, or a word, a space and a text.
abbrev pub OneWord : List ℕ → Type 0
OneWord text =
    (All (Other space) text
      × (word text ≡ text)
      × (behind_word text ≡ [])
      × ((piece : List ℕ) → pieces piece text ≡ (piece ++ text) ∷ []))
    ⊎ ((first rest : List ℕ) × (text ≡ first ++ space ∷ rest)
        × All (Other space) first
        × (word text ≡ first)
        × (behind_word text ≡ rest)
        × ((piece : List ℕ) → pieces piece text ≡ (piece ++ first) ∷ pieces [] rest))

pub parted : (text : List ℕ) → OneWord text
parted [] = inl (tt, refl, refl, λ piece. ap (λ l. l ∷ []) (sym (append_nil piece)))
parted (c ∷ text) = elim (Bool-cases (c == space)) [
  | inl e ↦ inr (
    [],
    text,
    ap (λ d. d ∷ text) (==→eq c space e),
    tt,
    ap (λ b. if b then [] else c ∷ word text) e,
    ap (λ b. if b then text else behind_word text) e,
    λ piece.
        ap (λ b. if b then piece ∷ pieces [] text else pieces (piece ++ c ∷ []) text) e
        ∙ ap (λ l. l ∷ pieces [] text) (sym (append_nil piece)),
  )
  | inr e ↦ elim (parted text) [
    | inl (other, same, none_left, all) ↦ inl (
      (==→ne c space e, other),
      ap (λ b. if b then [] else c ∷ word text) e ∙ ap (λ l. c ∷ l) same,
      ap (λ b. if b then text else behind_word text) e ∙ none_left,
      λ piece.
          ap (λ b. if b then piece ∷ pieces [] text else pieces (piece ++ c ∷ []) text) e
          ∙ all (piece ++ c ∷ [])
          ∙ ap (λ l. l ∷ []) (append_assoc piece (c ∷ []) text),
    )
    | inr (first, rest, whole, other, same, left, all) ↦ inr (
      c ∷ first,
      rest,
      ap (λ l. c ∷ l) whole,
      (==→ne c space e, other),
      ap (λ b. if b then [] else c ∷ word text) e ∙ ap (λ l. c ∷ l) same,
      ap (λ b. if b then text else behind_word text) e ∙ left,
      λ piece.
          ap (λ b. if b then piece ∷ pieces [] text else pieces (piece ++ c ∷ []) text) e
          ∙ all (piece ++ c ∷ [])
          ∙ ap (λ l. l ∷ pieces [] rest) (append_assoc piece (c ∷ []) first),
    )
  ]
]

-- `strncmp` with the length of the word says whether the name begins with it.
strncmp-begins :
    (start name rest behind : List ℕ)
    → All NonZero start
    → strncmp (start ++ rest) (c_string name behind) (length start) ≡ some (begins start name)
unfolding strncmp
strncmp-begins [] name rest behind ok = ground arith
strncmp-begins (c ∷ start) [] rest behind (one, ok) = ground (arith, one)
strncmp-begins (c ∷ start) (d ∷ name) rest behind (one, ok) =
    let next = strncmp-begins start name rest behind ok in ground (arith, one, next)

-- The command size
pub size_loop-stop :
    (size d : ℕ) (first p : List ℕ)
    → All NonZero first
    → All (Other space) first
    → ((d == space) || (d == 0)) ≡ true
    → size + length first ≤ 127
    → size_loop size (first ++ d ∷ p) ≡ some (some (size + length first, d ∷ p))
unfolding size_loop
size_loop-stop size d [] p ok other stop small =
    ap
      (λ b.
        if b
        then some (some (size, d ∷ p))
        else if ltb 127 size
        then some none
        else size_loop (size + 1) p)
      stop
    ∙ ap (λ n. some (some (n, d ∷ p))) {x = size} {y = size + 0} (omega arith)
size_loop-stop size d (c ∷ first) p (one, ok) (unlike, other) stop small =
    let next = size_loop-stop (size + 1) d first p ok other stop (omega (arith, small)) in
    let place : size + 1 + length first ≡ size + suc (length first) = omega arith in
    ground (arith, one, unlike, small, next, place)

-- The end of an argument is a space, or the end of the line.
pub arg_loop-stop :
    (at size d : ℕ) (first p : List ℕ)
    → All NonZero first
    → All (Other space) first
    → ((d == space) || (d == 0)) ≡ true
    → at + length first ≤ 127
    → arg_loop at size (first ++ d ∷ p) ≡ some (not (d == space), size + length first, d ∷ p)
unfolding arg_loop
arg_loop-stop at size d [] p ok other stop small =
    let place : size + 0 ≡ size = omega arith in ground (arith, stop, place)
arg_loop-stop at size d (c ∷ first) p (one, ok) (unlike, other) stop small =
    let next = arg_loop-stop (at + 1) (size + 1) d first p ok other stop (omega (arith, small)) in
    let place : size + 1 + length first ≡ size + suc (length first) = omega arith in
    ground (arith, one, unlike, small, next, place)

copied_part :
    (block piece more : List ℕ)
    → All NonZero piece
    → length block ≡ suc (length piece)
    → (b : ℕ) × (substr_loop (length piece) (piece ++ more) block ≡ some (piece ++ b ∷ []))
unfolding substr_loop
copied_part [] piece more ok len = absurd (omega (arith, len))
copied_part (b ∷ []) [] more ok len = (b, refl)
copied_part (b ∷ d ∷ block) [] more ok len = absurd (omega (arith, len))
copied_part (b ∷ block) (c ∷ piece) more (one, ok) len =
    let (b', run) = copied_part block piece more ok (omega (arith, len)) in
    (b', ground (arith, one, run))

set_last : (piece : List ℕ) (b : ℕ) → set (piece ++ b ∷ []) (length piece) 0 ≡ ended piece
set_last [] b = refl
set_last (c ∷ piece) b = ap (λ l. c ∷ l) (set_last piece b)

-- A piece at the start of a string is copied as it is.
pub substr-piece :
    (block piece more : List ℕ)
    → All NonZero piece
    → length block ≡ suc (length piece)
    → substr block (piece ++ more) 0 (length piece) ≡ some (ended piece)
unfolding substr
substr-piece block piece more ok len =
    let (b, run) = copied_part block piece more ok len in
    ap (λ o. o >>= (λ new_str. some (set new_str (length piece) 0))) run
    ∙ ap some (set_last piece b)

-- The chain of tests finds the first command whose name begins with the word.
abbrev pub ended_names : List (List ℕ × Command) → List (List ℕ × Command)
ended_names [] = []
ended_names ((name, chosen) ∷ more) = (ended name, chosen) ∷ ended_names more

pub choose-command_of :
    (names : List (List ℕ × Command)) (start rest : List ℕ)
    → All NonZero start
    → choose (ended_names names) (start ++ rest) (length start) ≡ some (command_of names start)
unfolding choose
choose-command_of [] start rest ok = refl
choose-command_of ((name, chosen) ∷ more) start rest ok =
    let one = strncmp-begins start name rest [] ok in
    let next = choose-command_of more start rest ok in ground (arith, one, next)
