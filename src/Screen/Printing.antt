-- ===== src/Screen/Printing.antt =====
-- No text makes `screen_print` write outside the buffer.
use eitan_os.Base.{
  ℕ, zero, suc, ◌+◌, ◌-◌, ◌%◌, ◌<◌, ◌≤◌, ◌≡◌, refl, sym, ap, subst, ◌∙◌, Bool, true, false, ◌==◌,
  ltb, leb, if◌then◌else◌, List, [], ◌∷◌, All, set, length, length-set, Option, none, some, arith,
  ne→==, lt→ltb, ltb→lt, ==→eq,
}
use eitan_os.Base.Faults.{◌>>=◌}
use eitan_os.Text.Compare.{NonZero, c_string}
use eitan_os.Screen.{Screen, buffer_size, put, push, spaces, wrapped, print_char, screen_print}

pub record IsValid (s : Screen) : Type 0 where
  pub size : length s.buffer ≡ buffer_size
  pub end_inside : s.buffer_end ≤ buffer_size
  pub wide : 0 < s.width

-- The run ends with a valid buffer.
abbrev pub Ends : Option Screen → Type 0
Ends none = ⊥
Ends (some s) = IsValid s

put_lem :
    (s : Screen) (at c end : ℕ)
    → IsValid s
    → at < buffer_size
    → end ≤ buffer_size
    → Ends (put s at c >>= (λ s1. some (record s1 { buffer_end = end })))
put_lem s at c end valid h e =
    subst Ends
      (sym (
        ap
          (λ b.
            (if b then some (record s { buffer = set s.buffer at c }) else none)
            >>= (λ s1. some (record s1 { buffer_end = end })))
          (lt→ltb at (length s.buffer) (omega (arith, h, valid.size)))))
      (record { size = length-set s.buffer at c ∙ valid.size; end_inside = e; wide = valid.wide })

bind_Ends :
    (o : Option Screen) (f : Screen → Option Screen)
    → Ends o
    → ((s : Screen) → IsValid s → Ends (f s))
    → Ends (o >>= f)
bind_Ends none f h g = absurd h
bind_Ends (some s) f h g = g s h

spaces-Ends : (n : ℕ) (s : Screen) → IsValid s → Ends (spaces n s)
unfolding spaces
spaces-Ends zero s valid = valid
spaces-Ends (suc n) s valid =
    choose (ltb s.buffer_end buffer_size) (ltb→lt s.buffer_end buffer_size) (spaces-Ends n)
  where
    choose :
        (b : Bool)
        → (b ≡ true → s.buffer_end < buffer_size)
        → ((s' : Screen) → IsValid s' → Ends (spaces n s'))
        → Ends (if b then push s 32 >>= spaces n else some s)
    choose false inside more = valid
    choose true inside more =
        bind_Ends (push s 32) (spaces n)
          (put_lem s s.buffer_end 32 (s.buffer_end + 1) valid (inside refl)
            (omega (arith, inside refl)))
          more

wrapped-IsValid :
    (s : Screen) → IsValid s → IsValid (wrapped s) × ((wrapped s).buffer_end < buffer_size)
wrapped-IsValid s valid = choose (leb buffer_size s.buffer_end) refl
  where
    choose :
        (b : Bool)
        → leb buffer_size s.buffer_end ≡ b
        → IsValid (if b then record s { buffer_end = 0 } else s)
          × ((if b then record s { buffer_end = 0 } else s).buffer_end < buffer_size)
    choose true e =
        (record { size = valid.size; end_inside = omega arith; wide = valid.wide }, omega arith)
    choose false e = (valid, ground (arith, e))

print_char-Ends : (c : ℕ) (s : Screen) → IsValid s → Ends (print_char c s)
unfolding print_char
print_char-Ends c s valid =
    let (ok, inside) = wrapped-IsValid s valid in
    choose (wrapped s) ok inside (c == 8) (c == 13) (c == 9)
  where
    back :
        (s0 : Screen)
        → IsValid s0
        → s0.buffer_end < buffer_size
        → (b : Bool)
        → Ends (
            if b
            then put s0 s0.buffer_end 0
              >>= (λ s1. some (record s1 { buffer_end = s0.buffer_end - 1 }))
            else some s0)
    back s0 ok inside true =
        put_lem s0 s0.buffer_end 0 (s0.buffer_end - 1) ok inside (omega (arith, inside))
    back s0 ok inside false = ok

    start_of_line :
        (s0 : Screen)
        → IsValid s0
        → (b : Bool) → (b ≡ true → s0.width ≡ 0)
        → Ends (
            if b
            then none
            else some (record s0 { buffer_end = s0.buffer_end - s0.buffer_end % s0.width }))
    start_of_line s0 ok true is = absurd (omega (arith, is refl, ok.wide))
    start_of_line s0 ok false is = record {
      size = ok.size;
      end_inside = omega (arith, ok.end_inside);
      wide = ok.wide;
    }

    choose :
        (s0 : Screen)
        → IsValid s0
        → s0.buffer_end < buffer_size
        → (erase return tab : Bool)
        → Ends (
            if erase
            then if ltb 0 s0.buffer_end
              then put s0 s0.buffer_end 0
                >>= (λ s1. some (record s1 { buffer_end = s0.buffer_end - 1 }))
              else some s0
            else if return
            then if s0.width == 0
              then none
              else some (record s0 { buffer_end = s0.buffer_end - s0.buffer_end % s0.width })
            else if tab
            then spaces (4 - s0.buffer_end % 4) s0
            else push s0 c)
    choose s0 ok inside true return tab = back s0 ok inside (ltb 0 s0.buffer_end)
    choose s0 ok inside false true tab = start_of_line s0 ok (s0.width == 0) (==→eq s0.width 0)
    choose s0 ok inside false false true = spaces-Ends (4 - s0.buffer_end % 4) s0 ok
    choose s0 ok inside false false false =
        put_lem s0 s0.buffer_end c (s0.buffer_end + 1) ok inside (omega (arith, inside))

-- On a valid buffer with lines of a character at least, `screen_print` of any text returns: it writes inside
-- the buffer only, whatever control characters the text has, and its end stays in the buffer.
pub screen_print-Ends :
    (text behind : List ℕ) (s : Screen)
    → All NonZero text
    → IsValid s
    → Ends (screen_print (c_string text behind) s)
unfolding screen_print
screen_print-Ends [] behind s ok valid = valid
screen_print-Ends (c ∷ text) behind s (one, ok) valid =
    subst Ends
      (sym (
        ap (λ b. if b then some s else print_char c s >>= screen_print (c_string text behind))
          (ne→== c 0 one)))
      (bind_Ends (print_char c s) (screen_print (c_string text behind)) (print_char-Ends c s valid)
        (λ s' valid'. screen_print-Ends text behind s' ok valid'))
