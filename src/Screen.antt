-- ===== src/Screen.antt =====
-- screen.c: the text buffer that `screen_print` fills. A write outside it, and a division by zero, is `none`. What `screen_flush`
-- draws is output, which changes nothing that these functions read.
pub mod Printing
mod Examples
use eitan_os.Base.{
  ℕ, zero, suc, ◌+◌, ◌-◌, ◌%◌, ◌==◌, ltb, leb, if◌then◌else◌, List, [], ◌∷◌, set, replicate, length,
  Option, none, some,
}
use eitan_os.Base.Faults.{◌>>=◌}

abbrev pub buffer_size : ℕ
buffer_size = 0x4000

-- `buffer`, `buffer_end`, `scroll`, and the characters in a line
pub record Screen : Type 0 where
  pub buffer : List ℕ
  pub buffer_end : ℕ
  pub scroll : ℕ
  pub width : ℕ

-- `buffer[at] = c`
abbrev pub put : Screen → ℕ → ℕ → Option Screen
put s at c =
    if ltb at (length s.buffer) then some (record s { buffer = set s.buffer at c }) else none

-- `buffer[buffer_end++] = c`
abbrev pub push : Screen → ℕ → Option Screen
push s c = put s s.buffer_end c >>= (λ s1. some (record s1 { buffer_end = s.buffer_end + 1 }))

-- The loop of a tabulator
unfoldable pub spaces : ℕ → Screen → Option Screen
spaces zero s = some s
spaces (suc n) s =
    let again = spaces n in if ltb s.buffer_end buffer_size then push s 32 >>= again else some s

abbrev pub wrapped : Screen → Screen
wrapped s = if leb buffer_size s.buffer_end then record s { buffer_end = 0 } else s

unfoldable pub print_char : ℕ → Screen → Option Screen
print_char c s =
    let s0 = wrapped s in
    let end = s0.buffer_end in
    if c == 8
    then if ltb 0 end
      then put s0 end 0 >>= (λ s1. some (record s1 { buffer_end = end - 1 }))
      else some s0
    else if c == 13
    then if s0.width == 0 then none else some (record s0 { buffer_end = end - end % s0.width })
    else if c == 9
    then spaces (4 - end % 4) s0
    else push s0 c

unfoldable pub screen_print : List ℕ → Screen → Option Screen
screen_print [] s = none
screen_print (c ∷ msg) s =
    let again = screen_print msg in if c == 0 then some s else print_char c s >>= again

-- The scroll of an `int` argument, which is negative where it has the sign bit
pub screen_scroll : ℕ → Screen → Screen
screen_scroll to s = record s { scroll = if ltb to 0x80000000 then to else 0 }

pub screen_clear : Screen → Screen
screen_clear s = record s { buffer = replicate {A = ℕ} buffer_size 0; buffer_end = 0; scroll = 0 }
