-- ===== src/Shell/Command.antt =====
-- programs/shell/c.c: `parse_command_line`. `fresh n` is what `malloc(n)` gives.
pub mod Words
pub mod Arguments
pub mod Line
mod Examples
use eitan_os.Base.{
  ℕ, zero, suc, ◌+◌, ◌*◌, ◌/◌, ◌%◌, ◌^◌, Bool, true, false, ◌==◌, ◌||◌, ltb, if◌then◌else◌, List,
  [], ◌∷◌, ◌++◌, length, Option, none, some,
}
use eitan_os.Base.Faults.{◌>>=◌}
use eitan_os.Text.{strncmp}
use eitan_os.Text.Build.{substr}

-- `no_command` is the source's `none`.
pub data Command : Type 0 where
  no_command : Command
  ls : Command
  echo : Command
  clear : Command
  cd : Command
  touch : Command
  cat : Command
  write : Command
  rm : Command
  man : Command
  find : Command
  mkdir : Command
  rmdir : Command
  mv : Command
  stat : Command

abbrev pub space : ℕ
space = 32

-- The names in the order of the tests
abbrev pub commands : List (List ℕ × Command)
commands =
    (108 ∷ 115 ∷ 0 ∷ [], ls)
    ∷ (101 ∷ 99 ∷ 104 ∷ 111 ∷ 0 ∷ [], echo)
    ∷ (99 ∷ 108 ∷ 101 ∷ 97 ∷ 114 ∷ 0 ∷ [], clear)
    ∷ (99 ∷ 100 ∷ 0 ∷ [], cd)
    ∷ (116 ∷ 111 ∷ 117 ∷ 99 ∷ 104 ∷ 0 ∷ [], touch)
    ∷ (99 ∷ 97 ∷ 116 ∷ 0 ∷ [], cat)
    ∷ (119 ∷ 114 ∷ 105 ∷ 116 ∷ 101 ∷ 0 ∷ [], write)
    ∷ (114 ∷ 109 ∷ 0 ∷ [], rm)
    ∷ (109 ∷ 97 ∷ 110 ∷ 0 ∷ [], man)
    ∷ (102 ∷ 105 ∷ 110 ∷ 100 ∷ 0 ∷ [], find)
    ∷ (109 ∷ 107 ∷ 100 ∷ 105 ∷ 114 ∷ 0 ∷ [], mkdir)
    ∷ (114 ∷ 109 ∷ 100 ∷ 105 ∷ 114 ∷ 0 ∷ [], rmdir)
    ∷ (109 ∷ 118 ∷ 0 ∷ [], mv)
    ∷ (115 ∷ 116 ∷ 97 ∷ 116 ∷ 0 ∷ [], stat)
    ∷ []

-- The chain of `strncmp(command_line, name, command_size)`
unfoldable pub choose : List (List ℕ × Command) → List ℕ → ℕ → Option Command
choose [] line size = some no_command
choose ((name, chosen) ∷ more) line size =
    let rest = choose more line size in
    strncmp line name size >>= (λ same. if same then some chosen else rest)

-- The first loop: `command_size` and the line from there on, or the inner `none` for a command too long
unfoldable pub size_loop : ℕ → List ℕ → Option (Option (ℕ × List ℕ))
size_loop size [] = none
size_loop size (c ∷ p) =
    let rest = size_loop (size + 1) p in
    if (c == space) || (c == 0)
    then some (some (size, c ∷ p))
    else if ltb 127 size
    then some none
    else rest

-- The loop for one argument, `at` being `arg_start + arg_size`: `reached_end`, `arg_size`, the line from there on
unfoldable pub arg_loop : ℕ → ℕ → List ℕ → Option (Bool × ℕ × List ℕ)
arg_loop at size [] = none
arg_loop at size (c ∷ p) =
    let rest = arg_loop (at + 1) (size + 1) p in
    if c == space
    then some (false, size, c ∷ p)
    else if (c == 0) || ltb 127 at
    then some (true, size, c ∷ p)
    else rest

abbrev pub after_one : List ℕ → List ℕ
after_one [] = []
after_one (c ∷ p) = p

abbrev pub grown : ℕ → ℕ → ℕ
grown capacity size = if ltb (capacity / 2) size then capacity * 2 % 2 ^ 32 else capacity

-- The loop for all arguments, `p` being the line from `arg_start` on. A store behind the capacity is `none`. Each
-- round passes a byte at least, so one more than there are bytes is fuel enough.
unfoldable pub args_loop :
    (ℕ → List ℕ) → ℕ → ℕ → ℕ → List (List ℕ) → List ℕ → Option (List (List ℕ))
args_loop fresh zero capacity start args p = none
args_loop fresh (suc fuel) capacity start args p =
    let again : ℕ → ℕ → List (List ℕ) → List ℕ → Option (List (List ℕ)) = args_loop fresh fuel in
    let room = grown capacity (length args) in
    arg_loop start 0 p >>= (λ (over, size, q). substr (fresh (size + 1)) p 0 size >>= (λ arg.
      if ltb (length args) room
      then (if over
          then some (args ++ arg ∷ [])
          else again room (start + (size + 1)) (args ++ arg ∷ []) (after_one q))
      else none))

unfoldable pub read_args : (ℕ → List ℕ) → ℕ → List ℕ → Option (List (List ℕ))
read_args fresh start [] = none
read_args fresh start (c ∷ p) =
    if (c == 0) || ltb 127 start
    then some []
    else args_loop fresh (suc (length (c ∷ p))) 10 start [] (c ∷ p)

-- What follows the first loop
unfoldable pub after_size :
    (ℕ → List ℕ) → List ℕ → Option (ℕ × List ℕ) → Option (Option (Command × List (List ℕ)))
after_size fresh line none = some none
after_size fresh line (some (size, p)) = choose commands line size >>= (λ command.
    read_args fresh (size + 1) (after_one p) >>= (λ args. some (some (command, args))))

-- The inner `none` is `false`.
unfoldable pub parse_command_line :
    (ℕ → List ℕ) → List ℕ → Option (Option (Command × List (List ℕ)))
parse_command_line fresh [] = none
parse_command_line fresh (c ∷ line) =
    let rest = size_loop 0 (c ∷ line) >>= after_size fresh (c ∷ line) in
    if c == 0 then some none else rest
