-- ===== src/ReverseArray/Arguments.antt =====
-- week4/workshop4/sharedMemory: which arguments `main` of shm_reverse_array.c goes on with, and
-- what `charToInt` of ancillary_functions.c makes of them.
use mathlib.Core.Option.{some-injective}
use cab403work.Base.{
  leb→le, ℕ, suc, ◌+◌, ◌-◌, ◌*◌, ◌≤◌, ◌<◌, ◌≡◌, refl, sym, ap, ◌∙◌, Bool, Bool-cases, inl, inr, ◌↔◌,
  ◌⊎◌, true, false, [], ◌∷◌, arith, leb, if◌then◌else◌, Option, none, some,
}
use cab403work.Base.Int.{ℤ, pos, negsuc, neg, ◌≤ℤ◌, ≤→ltb_ℤ}
use cab403work.Base.Text.{Bytes}
use cab403work.Libc.{
  skip_spaces, read_digits, starts_digit, long_max, Strtol, strtol, signed_digits, streq, print_ℕ,
  print_ℤ,
}
use cab403work.Libc.Numbers.{AllDigits, read_digits-decimal, print_ℕ-starts_digit}
use cab403work.ReverseArray.{
  int_max, is_number, to_int, char_to_int, go_on, converted, check_arguments,
}

abbrev digits_value : Bytes → ℕ
digits_value s = (read_digits 0 s).0

abbrev whole : ℕ → Bool → Strtol
whole n negative = record {
  value = if negative then neg (pos n) else pos n;
  erange = false;
  end = [];
}

-- A text that begins with a digit.
strtol-digits :
    (s : Bytes) (n : ℕ)
    → starts_digit s ≡ true
    → read_digits 0 s ≡ (n, [])
    → n ≤ long_max
    → strtol s ≡ record { value = pos n; erange = false; end = [] }
unfolding strtol skip_spaces signed_digits
strtol-digits [] n d r h = cc
strtol-digits (c ∷ s) n d r h = ground arith

strtol-negative :
    (s : Bytes) (n : ℕ)
    → starts_digit s ≡ true
    → read_digits 0 s ≡ (n, [])
    → n ≤ long_max
    → strtol (b'-' ∷ s) ≡ record { value = neg (pos n); erange = false; end = [] }
unfolding strtol skip_spaces signed_digits
strtol-negative s n d r h = ground arith

-- A number that was read whole is converted where it is in range.
to_int-whole :
    (c : ℕ) (s : Bytes) (z : ℤ)
    → z ≤ℤ pos int_max
    → negsuc int_max ≤ℤ z
    → to_int (c ∷ s) (record { value = z; erange = false; end = [] }) ≡ some z
unfolding streq
to_int-whole c s z hi lo = rw (≤→ltb_ℤ (pos int_max) z hi, ≤→ltb_ℤ z (negsuc int_max) lo)

char_to_int-digits :
    (s : Bytes) (n : ℕ)
    → starts_digit s ≡ true
    → read_digits 0 s ≡ (n, [])
    → n ≤ int_max
    → char_to_int s ≡ some (pos n)
unfolding char_to_int
char_to_int-digits [] n d r h = cc
char_to_int-digits (c ∷ s) n d r h =
    rw (strtol-digits (c ∷ s) n d r (omega arith))
      (to_int-whole c s (pos n) (omega arith) (omega arith))

-- `charToInt` gives back every `int` that `%d` printed.
char_to_int-print_ℤ :
    (z : ℤ) → negsuc int_max ≤ℤ z → z ≤ℤ pos int_max → char_to_int (print_ℤ z) ≡ some z
unfolding char_to_int print_ℤ print_ℕ
char_to_int-print_ℤ (pos n) lo hi =
    char_to_int-digits (print_ℕ n) n (print_ℕ-starts_digit n)
      (read_digits-decimal (suc n) n (omega arith)) (omega arith)
char_to_int-print_ℤ (negsuc n) lo hi =
    rw
      (strtol-negative (print_ℕ (suc n)) (suc n) (print_ℕ-starts_digit (suc n))
        (read_digits-decimal (suc (suc n)) (suc n) (omega arith)) (omega arith))
      (to_int-whole b'-' (print_ℕ (suc n)) (negsuc n) (omega arith) (omega arith))

is_number_iff : (s : Bytes) → (is_number s ≡ 0) ↔ AllDigits s
unfolding is_number
is_number_iff [] = ground arith
is_number_iff (c ∷ s) = ground (arith, is_number_iff s)

read_digits-all : (k : ℕ) (s : Bytes) → AllDigits s → (read_digits k s).1 ≡ []
unfolding read_digits
read_digits-all k [] h = refl
read_digits-all k (c ∷ s) h = ground (arith, read_digits-all (k * 10 + (c - b'0')) s)

digits-pair :
    (c : ℕ) (s : Bytes) → AllDigits (c ∷ s) → read_digits 0 (c ∷ s) ≡ (digits_value (c ∷ s), [])
digits-pair c s h = ap (λ rest. (digits_value (c ∷ s), rest)) (read_digits-all 0 (c ∷ s) h)

-- A number above the range is refused, whether it fits a `long` or not.
char_to_int-large :
    (c : ℕ) (s : Bytes) (n : ℕ)
    → starts_digit (c ∷ s) ≡ true
    → read_digits 0 (c ∷ s) ≡ (n, [])
    → int_max < n
    → char_to_int (c ∷ s) ≡ none
unfolding char_to_int strtol skip_spaces signed_digits streq
char_to_int-large c s n d r h = ground arith

-- A text of digits that is converted.
converted-value :
    (s : Bytes) (z : ℤ)
    → is_number s ≡ 0
    → char_to_int s ≡ some z
    → (z ≡ pos (digits_value s)) × (digits_value s ≤ int_max)
unfolding char_to_int strtol streq
converted-value [] z d e = cc
converted-value (c ∷ s) z d e =
    let digits = (is_number_iff (c ∷ s)).0 d in
    let pair = digits-pair c s digits in
    elim (Bool-cases (leb (digits_value (c ∷ s)) int_max)) [
      | inl small ↦
          let fits = leb→le _ _ small in
          (some-injective _ _ (sym e ∙ char_to_int-digits (c ∷ s) _ digits.0 pair fits), fits)
      | inr large ↦
          let big : int_max < digits_value (c ∷ s) = ground arith in
          let refused = char_to_int-large c s _ digits.0 pair big in
          let clash : some z ≡ none = sym e ∙ refused in cc
    ]

-- The text is all digits, and the number is the one that it writes, an `int`.
abbrev pub Writes : Bytes → ℤ → Type 0
Writes s z = AllDigits s × (z ≡ pos (digits_value s)) × (digits_value s ≤ int_max)

converted-parts :
    (o p q : Option ℤ) (a b n : ℤ)
    → converted o p q ≡ go_on a b n
    → (o ≡ some a) × (p ≡ some b) × (q ≡ some n)
converted-parts none p q a b n e = cc
converted-parts (some x) none q a b n e = cc
converted-parts (some x) (some y) none a b n e = cc
converted-parts (some x) (some y) (some z) a b n e = (cc, cc, cc)

is_number-or : (s : Bytes) → (is_number s ≡ 0) ⊎ (is_number s ≡ 1)
unfolding is_number
is_number-or [] = inl refl
is_number-or (c ∷ s) = ground (arith, is_number-or s)

check_arguments-checks :
    (name lower upper count : Bytes) (a b n : ℤ)
    → check_arguments (name ∷ lower ∷ upper ∷ count ∷ []) ≡ go_on a b n
    → (is_number lower ≡ 0)
      × (is_number upper ≡ 0)
      × (is_number count ≡ 0)
      × (converted (char_to_int lower) (char_to_int upper) (char_to_int count) ≡ go_on a b n)
unfolding check_arguments
check_arguments-checks name lower upper count a b n e =
    ground (arith, is_number-or lower, is_number-or upper, is_number-or count)

written : (s : Bytes) (z : ℤ) → is_number s ≡ 0 → char_to_int s ≡ some z → Writes s z
written s z d e =
    let (value, small) = converted-value s z d e in ((is_number_iff s).0 d, value, small)

-- Where the program goes on, it was given four arguments, and the last three are digits only that
-- write the numbers with which it goes on, none of them above INT_MAX.
pub check_arguments-go_on :
    (name lower upper count : Bytes) (a b n : ℤ)
    → check_arguments (name ∷ lower ∷ upper ∷ count ∷ []) ≡ go_on a b n
    → Writes lower a × Writes upper b × Writes count n
check_arguments-go_on name lower upper count a b n e =
    let (l, u, c, all) = check_arguments-checks name lower upper count a b n e in
    let (a', b', n') =
      converted-parts (char_to_int lower) (char_to_int upper) (char_to_int count) a b n all in
    (written lower a l a', written upper b u b', written count n c n')
