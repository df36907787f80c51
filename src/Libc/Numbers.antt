-- ===== src/Libc/Numbers.antt =====
-- Reading back what `%d` prints.
use cab403work.Base.{
  ℕ, zero, suc, ◌+◌, ◌-◌, ◌*◌, ◌/◌, ◌%◌, ◌≤◌, ◌<◌, ◌≡◌, refl, Bool-cases, inl, inr, true, [], ◌∷◌,
  ◌++◌, arith, ltb, length, length-append,
}
use cab403work.Base.Int.{pos}
use cab403work.Base.Text.{Bytes, All, All-append}
use cab403work.Libc.{
  is_digit, skip_spaces, read_digits, starts_digit, long_max, atoi, decimal, print_ℕ,
}

abbrev pub AllDigits : Bytes → Type 0
AllDigits = All (λ c. is_digit c ≡ true)

-- Reading goes through digits and stops in front of anything else.
pub read_digits-append :
    (n : ℕ) (xs ys : Bytes)
    → AllDigits xs
    → read_digits n (xs ++ ys) ≡ read_digits (read_digits n xs).0 ys
unfolding read_digits
read_digits-append n [] ys h = refl
read_digits-append n (x ∷ xs) ys h =
    ground (arith, read_digits-append (n * 10 + (x - b'0')) xs ys h.1)

digit_lem : (d : ℕ) → d < 10 → is_digit (b'0' + d) ≡ true
digit_lem d h = ground arith

pub decimal-AllDigits : (f n : ℕ) → AllDigits (decimal f n)
unfolding decimal
decimal-AllDigits zero n = tt
decimal-AllDigits (suc f) n = elim (Bool-cases (ltb n 10)) [
  | inl low ↦ rw low (digit_lem n (ground arith), tt)
  | inr high ↦ rw high (
      All-append _ (decimal f (n / 10)) _ (decimal-AllDigits f (n / 10))
        (digit_lem (n % 10) (omega arith), tt))
]

-- Enough fuel: reading what was printed gives the number back.
pub read_digits-decimal : (f n : ℕ) → n < f → read_digits 0 (decimal f n) ≡ (n, [])
unfolding decimal read_digits
read_digits-decimal zero n h = elim h [ ]
read_digits-decimal (suc f) n h = ground (
  arith,
  read_digits-append 0 (decimal f (n / 10)) ((b'0' + n % 10) ∷ []) (decimal-AllDigits f (n / 10)),
  read_digits-decimal f (n / 10),
)

starts_digit-append : (xs ys : Bytes) → starts_digit xs ≡ true → starts_digit (xs ++ ys) ≡ true
starts_digit-append [] ys h = cc
starts_digit-append (x ∷ xs) ys h = h

decimal-starts_digit : (f n : ℕ) → n < f → starts_digit (decimal f n) ≡ true
unfolding decimal
decimal-starts_digit zero n h = elim h [ ]
decimal-starts_digit (suc f) n h = elim (Bool-cases (ltb n 10)) [
  | inl low ↦ rw low (digit_lem n (ground arith))
  | inr high ↦
      rw high (
        starts_digit-append (decimal f (n / 10)) _ (decimal-starts_digit f (n / 10) (ground arith)))
]

-- A text of digits only is read whole, as a number that is not negative.
atoi-digits :
    (s : Bytes) (n : ℕ)
    → starts_digit s ≡ true
    → read_digits 0 s ≡ (n, [])
    → n ≤ long_max
    → atoi s ≡ pos n
unfolding atoi skip_spaces
atoi-digits [] n d r h = cc
atoi-digits (c ∷ s) n d r h = ground arith

pub print_ℕ-starts_digit : (n : ℕ) → starts_digit (print_ℕ n) ≡ true
unfolding print_ℕ
print_ℕ-starts_digit n = decimal-starts_digit (suc n) n (omega arith)

-- `atoi` undoes `%d`.
pub atoi-print_ℕ : (n : ℕ) → n ≤ long_max → atoi (print_ℕ n) ≡ pos n
unfolding print_ℕ
atoi-print_ℕ n h =
    atoi-digits (print_ℕ n) n (print_ℕ-starts_digit n) (read_digits-decimal (suc n) n (omega arith))
      h

-- Every number below `m` takes at most `k` digits.
abbrev Fits : ℕ → ℕ → Type 0
Fits m k = (f n : ℕ) → n < m → length (decimal f n) ≤ k

one_digit : Fits 10 1
unfolding decimal
one_digit zero n h = omega arith
one_digit (suc f) n h = ground arith

one_more_digit : (m k : ℕ) → Fits m k → Fits (m * 10) (suc k)
unfolding decimal
one_more_digit m k fits zero n h = omega arith
one_more_digit m k fits (suc f) n h = elim (Bool-cases (ltb n 10)) [
  | inl low ↦ rw low (omega arith)
  | inr high ↦ rw (high, length-append) (omega (arith, fits f (n / 10) (omega arith)))
]

pub length-print_ℕ-lt_hundred : (n : ℕ) → n < 100 → length (print_ℕ n) ≤ 2
unfolding print_ℕ
length-print_ℕ-lt_hundred n h = one_more_digit 10 1 one_digit (suc n) n h

pub length-print_ℕ-lt_thousand : (n : ℕ) → n < 1000 → length (print_ℕ n) ≤ 3
unfolding print_ℕ
length-print_ℕ-lt_thousand n h = one_more_digit 100 2 (one_more_digit 10 1 one_digit) (suc n) n h
