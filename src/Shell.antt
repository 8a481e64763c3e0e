-- ===== src/Shell.antt =====
-- programs/shell/c.c: the paths that the commands take; Command is the line that names a command. The shell's string functions are those of
-- util/string.c, of which it has a copy; memory for new strings is taken for granted, as it does.
pub mod Names
pub mod Canonical
pub mod Parse
pub mod Valid
pub mod Absolute
pub mod Command
mod Examples
use eitan_os.Base.{
  ℕ, zero, suc, ◌+◌, ◌≤◌, Bool, true, false, ◌==◌, ltb, leb, if◌then◌else◌, List, [], ◌∷◌, ◌++◌,
  length, replicate, drop, Option, none, some,
}
use eitan_os.Base.Faults.{◌>>=◌}
use eitan_os.Text.{Length, counted, minus_one, times, strlen, strcmp, ends, skip_delim, token}
use eitan_os.Text.Build.{copy_bytes, str_concat}
use eitan_os.Text.Concats.{with_zero, strdup, str_concats}

abbrev pub slash : ℕ
slash = 47

abbrev pub dot : ℕ
dot = 46

-- The top of `stack` comes first, so that `top` is its length.
abbrev pub pop : List (List ℕ) → List (List ℕ)
pop [] = []
pop (part ∷ stack) = stack

-- What one part of the path does to the stack
unfoldable pub stack_part : List ℕ → List (List ℕ) → Option (List (List ℕ))
stack_part part stack = strcmp part (dot ∷ dot ∷ 0 ∷ []) >>= (λ up.
    if up
    then some (pop stack)
    else strcmp part (dot ∷ 0 ∷ []) >>= (λ here.
      if here then some stack else some (if ltb (length stack) 64 then part ∷ stack else stack)))

-- The first loop of `parse_path`. Each round passes a byte at least, so one more than there are bytes is fuel
-- enough. The copy of a part that `substr` makes has its bytes and a zero.
unfoldable pub parse_loop : ℕ → List (List ℕ) → List ℕ → Option (List (List ℕ))
parse_loop zero stack p = none
parse_loop (suc fuel) stack p =
    let again : List (List ℕ) → List ℕ → Option (List (List ℕ)) = parse_loop fuel in
    ends p >>= (λ over.
      if over
      then some stack
      else skip_delim slash p >>= (λ q. ends q >>= (λ over.
        if over
        then some stack
        else token slash q
          >>= (λ (bytes, r). stack_part (bytes ++ 0 ∷ []) stack >>= (λ next. again next r)))))

abbrev pub bottom_up : List (List ℕ) → List (List ℕ) → List (List ℕ)
bottom_up [] parts = parts
bottom_up (part ∷ stack) parts = bottom_up stack (part ∷ parts)

-- `memcpy` to the start of the path's memory; behind what is known of it is `none`.
abbrev pub copy_over : List ℕ → List ℕ → Option (List ℕ)
copy_over bytes path =
    if ltb (length path) (length bytes) then none else some (bytes ++ drop (length bytes) path)

-- A part, and a slash behind it if it is not the last
abbrev pub add_slash : List (List ℕ) → List ℕ → Option (Option (List ℕ))
add_slash [] temp = some (some temp)
add_slash (part ∷ parts) temp = str_concat true temp (slash ∷ 0 ∷ [])

unfoldable pub rebuild_loop : List (List ℕ) → List ℕ → Option (List ℕ)
rebuild_loop [] path = some path
rebuild_loop (part ∷ parts) path =
    let again : List ℕ → Option (List ℕ) = rebuild_loop parts in
    str_concat true path part >>= (λ first. first >>= (λ temp. add_slash parts temp >>= (λ second.
      second >>= (λ temp2. strlen temp2 >>= (λ len.
        copy_bytes (with_zero len) temp2
        >>= (λ bytes. copy_over bytes path >>= (λ next. again next)))))))

-- `memset(path, 0, len); path[0] = '/'; path[1] = '\0';`, where `len` is 2 at least
abbrev pub cleared : ℕ → List ℕ → List ℕ
cleared len path = slash ∷ 0 ∷ drop 2 (replicate len 0 ++ drop len path)

-- What the memory of the path holds afterwards
unfoldable pub parse_path : List ℕ → Option (List ℕ)
parse_path path = strlen path >>= (λ len.
    if leb (times len) 1
    then some path
    else parse_loop (suc (length path)) [] path
      >>= (λ stack. rebuild_loop (bottom_up stack []) (cleared (times len) path)))

-- `working_dir` is its memory.
unfoldable pub join_working_dir : List ℕ → List ℕ → Option (List ℕ)
join_working_dir working_dir [] = none
join_working_dir working_dir (c ∷ path) =
    if c == slash
    then strdup (c ∷ path)
    else str_concats (working_dir ∷ (slash ∷ 0 ∷ []) ∷ (c ∷ path) ∷ [])
