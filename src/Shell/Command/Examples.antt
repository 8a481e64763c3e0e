-- ===== src/Shell/Command/Examples.antt =====
-- programs/shell/c.c: command lines.
use eitan_os.Base.{ℕ, ◌≡◌, refl, List, [], ◌∷◌, length-replicate, replicate, map, some, arith}
use eitan_os.Text.Compare.{c_string}
use eitan_os.Text.Split.{ended}
use eitan_os.Shell.Command.{ls, rm, parse_command_line}
use eitan_os.Shell.Command.Words.{word, behind_word, command_of}
use eitan_os.Shell.Command.Line.{names, args_in, parse_command_line_lem}

abbrev sevens : ℕ → List ℕ
sevens n = replicate n 7

-- `cat a  b`, whose arguments are `a`, an empty one, and `b`
abbrev two_spaces : List ℕ
two_spaces = 99 ∷ 97 ∷ 116 ∷ 32 ∷ 97 ∷ 32 ∷ 32 ∷ 98 ∷ []

two_spaces_test :
    map ended (args_in (behind_word two_spaces)) ≡ (97 ∷ 0 ∷ []) ∷ (0 ∷ []) ∷ (98 ∷ 0 ∷ []) ∷ []
two_spaces_test = refl

-- `r a` is `rm a`.
one_letter_test : command_of names (word (114 ∷ 32 ∷ 97 ∷ [])) ≡ rm
one_letter_test = refl

-- A line that begins with a space is `ls`.
no_word_test : command_of names (word (32 ∷ 114 ∷ 109 ∷ [])) ≡ ls
no_word_test = refl

parse_command_line_lem_example :
    parse_command_line sevens (c_string two_spaces (0 ∷ []))
    ≡ some (some (command_of names (word two_spaces), map ended (args_in (behind_word two_spaces))))
parse_command_line_lem_example =
    parse_command_line_lem sevens (λ n. length-replicate {A = ℕ} n 7) two_spaces []
      (
        omega arith,
        (
          omega arith,
          (
            omega arith,
            (omega arith, (omega arith, (omega arith, (omega arith, (omega arith, tt))))),
          ),
        ),
      )
      (omega arith) (omega arith)
