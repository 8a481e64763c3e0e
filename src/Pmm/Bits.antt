-- ===== src/Pmm/Bits.antt =====
-- A bit of a byte after a write of that bit or of another: every case, by evaluation.
use eitan_os.Base.{
  ℕ, ◌<◌, ◌≡◌, refl, Bool, true, false, ◌&&◌, ◌==◌, ltb, if◌then◌else◌, passes_up_to, passes_at,
  arith,
}
use eitan_os.Pmm.{put_bit, test_bit}

same : Bool → Bool → Bool
same true b = b
same false b = if b then false else true

same→eq : (a b : Bool) → same a b ≡ true → a ≡ b
unfolding same
same→eq a b h = ground arith

bits_agree : Bool → ℕ → ℕ → ℕ → Bool
bits_agree v byte i j =
    ltb (put_bit byte i v) 256
    && same (test_bit (put_bit byte i v) j) (if i == j then v else test_bit byte j)

bits_table : Bool → Bool
bits_table v =
    passes_up_to 256 (λ byte. passes_up_to 8 (λ i. passes_up_to 8 (λ j. bits_agree v byte i j)))

bits_table-true : bits_table true ≡ true
unfolding bits_table bits_agree same put_bit test_bit passes_up_to
bits_table-true = refl

bits_table-false : bits_table false ≡ true
unfolding bits_table bits_agree same put_bit test_bit passes_up_to
bits_table-false = refl

bits_table_lem : (v : Bool) → bits_table v ≡ true
bits_table_lem true = bits_table-true
bits_table_lem false = bits_table-false

agree : (byte i j : ℕ) (v : Bool) → byte < 256 → i < 8 → j < 8 → bits_agree v byte i j ≡ true
unfolding bits_table
agree byte i j v hb hi hj =
    passes_at 8 _ j (passes_at 8 _ i (passes_at 256 _ byte (bits_table_lem v) hb) hi) hj

pub put_bit-lt : (byte i : ℕ) (v : Bool) → byte < 256 → i < 8 → put_bit byte i v < 256
unfolding bits_agree
put_bit-lt byte i v hb hi = ground (arith, agree byte i 0 v hb hi)

-- A written bit reads back, and the seven others stay.
pub test_bit-put_bit :
    (byte i j : ℕ) (v : Bool)
    → byte < 256
    → i < 8
    → j < 8
    → test_bit (put_bit byte i v) j ≡ (if i == j then v else test_bit byte j)
unfolding bits_agree
test_bit-put_bit byte i j v hb hi hj = same→eq _ _ (ground (arith, agree byte i j v hb hi hj))

full_byte_table : passes_up_to 8 (λ i. test_bit 0xFF i) ≡ true
unfolding test_bit passes_up_to
full_byte_table = refl

pub test_bit_full : (i : ℕ) → i < 8 → test_bit 0xFF i ≡ true
test_bit_full i h = passes_at 8 _ i full_byte_table h
