-- ===== src/Shell/Command/Line.antt =====
-- programs/shell/c.c: `parse_command_line` as a whole.
use eitan_os.Base.{
  ℕ, suc, ◌+◌, ◌≤◌, ◌≡◌, refl, sym, ap, subst, ◌∙◌, inl, inr, true, false, ◌==◌, ◌||◌, ltb, ne→==,
  if◌then◌else◌, List, [], ◌∷◌, ◌++◌, append_assoc, map, All, length, length-append, Option, some,
  none, arith,
}
use eitan_os.Base.Faults.{◌>>=◌}
use eitan_os.Text.Compare.{NonZero, c_string}
use eitan_os.Text.Search.{Other}
use eitan_os.Text.Split.{ended}
use eitan_os.Shell.Command.{
  Command, ls, echo, clear, cd, touch, cat, write, rm, man, find, mkdir, rmdir, mv, stat, space,
  commands, choose, size_loop, args_loop, read_args, after_size, parse_command_line,
}
use eitan_os.Shell.Command.Words.{
  word, behind_word, pieces, command_of, parted, size_loop-stop, choose-command_of,
}
use eitan_os.Shell.Command.Arguments.{All-left, args_loop-pieces}

abbrev pub names : List (List ℕ × Command)
names =
    (108 ∷ 115 ∷ [], ls)
    ∷ (101 ∷ 99 ∷ 104 ∷ 111 ∷ [], echo)
    ∷ (99 ∷ 108 ∷ 101 ∷ 97 ∷ 114 ∷ [], clear)
    ∷ (99 ∷ 100 ∷ [], cd)
    ∷ (116 ∷ 111 ∷ 117 ∷ 99 ∷ 104 ∷ [], touch)
    ∷ (99 ∷ 97 ∷ 116 ∷ [], cat)
    ∷ (119 ∷ 114 ∷ 105 ∷ 116 ∷ 101 ∷ [], write)
    ∷ (114 ∷ 109 ∷ [], rm)
    ∷ (109 ∷ 97 ∷ 110 ∷ [], man)
    ∷ (102 ∷ 105 ∷ 110 ∷ 100 ∷ [], find)
    ∷ (109 ∷ 107 ∷ 100 ∷ 105 ∷ 114 ∷ [], mkdir)
    ∷ (114 ∷ 109 ∷ 100 ∷ 105 ∷ 114 ∷ [], rmdir)
    ∷ (109 ∷ 118 ∷ [], mv)
    ∷ (115 ∷ 116 ∷ 97 ∷ 116 ∷ [], stat)
    ∷ []

-- The arguments: none if nothing stands behind the word
abbrev pub args_in : List ℕ → List (List ℕ)
args_in [] = []
args_in (c ∷ text) = pieces [] (c ∷ text)

module _ (fresh : ℕ → List ℕ) (given : (n : ℕ) → length (fresh n) ≡ n) where
  read_args-args_in :
      (start : ℕ) (text behind : List ℕ)
      → All NonZero text
      → start + length text ≤ 127
      → read_args fresh start (c_string text behind) ≡ some (map ended (args_in text))
  unfolding read_args
  read_args-args_in start [] behind ok small = refl
  read_args-args_in start (c ∷ text) behind (one, ok) small =
      let fuel = suc (length (c_string (c ∷ text) behind)) in
      let loop =
        args_loop-pieces fresh given fuel 10 start [] (c ∷ text) behind
          (omega arith, omega arith, omega arith) (omega arith) (one, ok) small
          (omega (arith, length-append (c ∷ text) (0 ∷ behind))) in
      let inside : ((c == 0) || ltb 127 start) ≡ false = ground (arith, one, small) in
      ap (λ b. if b then some [] else args_loop fresh fuel 10 start [] (c_string (c ∷ text) behind))
        inside
      ∙ loop

  -- From the word on, which ends at `d`
  from_word :
      (d : ℕ) (first rest behind : List ℕ)
      → All NonZero first
      → All (Other space) first
      → ((d == space) || (d == 0)) ≡ true
      → All NonZero rest
      → length first + 1 + length rest ≤ 127
      → (size_loop 0 (first ++ d ∷ c_string rest behind)
          >>= after_size fresh (first ++ d ∷ c_string rest behind))
        ≡ some (some (command_of names first, map ended (args_in rest)))
  unfolding after_size
  from_word d first rest behind ok other stop right small =
      let line = first ++ d ∷ c_string rest behind in
      let size =
        size_loop-stop 0 d first (c_string rest behind) ok other stop (omega (arith, small)) in
      let chosen : choose commands line (length first) ≡ some (command_of names first) =
        choose-command_of names first (d ∷ c_string rest behind) ok in
      let args = read_args-args_in (length first + 1) rest behind right small in
      let zero_more : 0 + length first ≡ length first = omega arith in
      let finish : Command → List (List ℕ) → Option (Option (Command × List (List ℕ))) =
        λ command args. some (some (command, args)) in
      let parse : Command → Option (Option (Command × List (List ℕ))) =
        λ command. read_args fresh (length first + 1) (c_string rest behind) >>= finish command in
      ap (λ o. o >>= after_size fresh line)
        (size ∙ ap (λ n. some (some (n, d ∷ c_string rest behind))) zero_more)
      ∙ ap (λ o. o >>= parse) chosen
      ∙ ap (λ o. o >>= finish (command_of names first)) args

  -- A line of 1 to 126 bytes, in memory with one more zero behind it, is parsed, if `malloc` gives the bytes it is
  -- asked for: the command is the first whose name begins with the line's word, which is what stands before the
  -- first space, and the arguments are what single spaces part of the rest, each with a zero behind it.
  pub parse_command_line_lem :
      (text behind : List ℕ)
      → All NonZero text
      → 1 ≤ length text
      → length text ≤ 126
      → parse_command_line fresh (c_string text (0 ∷ behind))
        ≡ some (some (command_of names (word text), map ended (args_in (behind_word text))))
  unfolding parse_command_line
  parse_command_line_lem [] behind ok full small = absurd (omega (arith, full))
  parse_command_line_lem (c ∷ text) behind (one, ok) full small =
      ap (λ b. if b then some none else run (c_string (c ∷ text) (0 ∷ behind))) (ne→== c 0 one)
      ∙ elim (parted (c ∷ text)) [
        | inl (other, same, none_left, _) ↦
            from_word 0 (c ∷ text) [] behind (one, ok) other refl tt (omega (arith, small))
            ∙ ap (λ w. some (some (command_of names w, map ended (args_in [])))) (sym same)
            ∙ ap (λ l. some (some (command_of names (word (c ∷ text)), map ended (args_in l))))
                (sym none_left)
        | inr (first, rest, whole, other, same, left, _) ↦
            let (ok_first, (_, ok_rest)) =
              All-left first (space ∷ rest) (subst (All NonZero) whole (one, ok)) in
            let size : suc (length text) ≡ length first + suc (length rest) =
              ap length whole ∙ length-append first (space ∷ rest) in
            ap (λ l. run (c_string l (0 ∷ behind))) whole
            ∙ ap run (append_assoc first (space ∷ rest) (0 ∷ 0 ∷ behind))
            ∙ from_word space first rest (0 ∷ behind) ok_first other refl ok_rest
                (omega (arith, size, small))
            ∙ ap (λ w. some (some (command_of names w, map ended (args_in rest)))) (sym same)
            ∙ ap (λ l. some (some (command_of names (word (c ∷ text)), map ended (args_in l))))
                (sym left)
      ]
    where
      run : List ℕ → Option (Option (Command × List (List ℕ)))
      run line = size_loop 0 line >>= after_size fresh line
