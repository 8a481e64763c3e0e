-- ===== src/Screen/Examples.antt =====
-- A tabulator at the end of the buffer, which then begins again at its start.
use eitan_os.Base.{ℕ, [], ◌∷◌, replicate, length-replicate, arith}
use eitan_os.Text.Compare.{c_string}
use eitan_os.Screen.{Screen, screen_print, buffer_size}
use eitan_os.Screen.Printing.{IsValid, Ends, screen_print-Ends}

abbrev nearly_full : Screen
nearly_full = record {
  buffer = replicate {A = ℕ} buffer_size 0;
  buffer_end = 0x3FFF;
  scroll = 0;
  width = 80;
}

nearly_full-IsValid : IsValid nearly_full
nearly_full-IsValid = record {
  size = length-replicate {A = ℕ} buffer_size 0;
  end_inside = omega arith;
  wide = omega arith;
}

screen_print-Ends_example : Ends (screen_print (c_string (9 ∷ 13 ∷ 8 ∷ 65 ∷ []) []) nearly_full)
screen_print-Ends_example =
    screen_print-Ends (9 ∷ 13 ∷ 8 ∷ 65 ∷ []) [] nearly_full
      (
        λ e. absurd (omega (arith, e)),
        (
          λ e. absurd (omega (arith, e)),
          (λ e. absurd (omega (arith, e)), (λ e. absurd (omega (arith, e)), tt)),
        ),
      )
      nearly_full-IsValid
