-- ===== src/Car/Floors/Numbers.antt =====
-- The floor texts and their numbers.
use cab403work.Base.{take-all, ℕ, suc, ◌≤◌, ◌≡◌, refl, ap, true, [], ◌∷◌, arith}
use cab403work.Base.Int.{ℤ, pos, negsuc, ◌≤ℤ◌, ≤→ltb_ℤ}
use cab403work.Base.Text.{Bytes}
use cab403work.Libc.{atoi, print_ℕ, print_ℤ, starts_digit}
use cab403work.Libc.Numbers.{
  atoi-print_ℕ, print_ℕ-starts_digit, length-print_ℕ-lt_hundred, length-print_ℕ-lt_thousand,
}
use cab403work.Car.Floors.{floor_str_to_int, floor_int_to_str}

-- B99 to 999, with 0 between B1 and 1.
abbrev pub IsFloorNumber : ℤ → Type 0
IsFloorNumber n = (negsuc 98 ≤ℤ n) × (n ≤ℤ pos 999)

-- The text of a floor, with the buffer's bound gone.
pub floor_int_to_str-pos : (n : ℕ) → n ≤ 999 → floor_int_to_str (pos n) ≡ print_ℕ n
unfolding floor_int_to_str print_ℤ
floor_int_to_str-pos n h =
    rw (≤→ltb_ℤ (pos n) (pos 0) (omega arith))
      (take-all 3 (print_ℕ n) (length-print_ℕ-lt_thousand n (omega arith)))

pub floor_int_to_str-negsuc :
    (n : ℕ) → n ≤ 98 → floor_int_to_str (negsuc n) ≡ b'B' ∷ print_ℕ (suc n)
unfolding floor_int_to_str print_ℤ
floor_int_to_str-negsuc n h =
    ap (λ t. b'B' ∷ t)
      (take-all 2 (print_ℕ (suc n)) (length-print_ℕ-lt_hundred (suc n) (omega arith)))

-- A text that starts with a digit is no basement.
floor_str_to_int-digits : (s : Bytes) → starts_digit s ≡ true → floor_str_to_int s ≡ atoi s
unfolding floor_str_to_int
floor_str_to_int-digits [] h = refl
floor_str_to_int-digits (c ∷ s) h = ground arith

-- Reading the text that is written for a floor number from -99 to 999 gives the number back.
pub floor_str_to_int-floor_int_to_str :
    (n : ℤ) → IsFloorNumber n → floor_str_to_int (floor_int_to_str n) ≡ n
floor_str_to_int-floor_int_to_str (pos n) h =
    rw (floor_int_to_str-pos n (omega arith), floor_str_to_int-digits _ (print_ℕ-starts_digit n))
      (atoi-print_ℕ n (omega arith))
floor_str_to_int-floor_int_to_str (negsuc n) h =
    rw (floor_int_to_str-negsuc n (omega arith))
      (unfold floor_str_to_int in rw (atoi-print_ℕ (suc n) (omega arith)) (ground arith))
