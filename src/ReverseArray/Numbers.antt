-- ===== src/ReverseArray/Numbers.antt =====
-- week4/workshop4/sharedMemory: the random numbers of ancillary_functions.c.
use cab403work.Base.{
  ℕ, zero, suc, ◌+◌, ◌-◌, ◌%◌, ◌≤◌, ◌<◌, ◌≡◌, refl, ap, List, [], ◌∷◌, arith, length, none, some,
}
use cab403work.Base.Int.{ℤ, pos, ◌≤ℤ◌, ◌-ℤ◌, incr}
use cab403work.Base.Text.{All}
use cab403work.ReverseArray.{int_max, wrapped, random_number, gen_from, gen_random_integer_numbers}

-- The number of the values from `a` to `b`.
abbrev range_size : ℕ → ℕ → ℕ
range_size a b = suc (b - a)

wrapped-small : (n : ℕ) → n ≤ int_max → wrapped (pos n) ≡ pos n
wrapped-small n h = ground arith

sub-pos : (a b : ℕ) → a ≤ b → incr (pos b -ℤ pos a) ≡ pos (range_size a b)
sub-pos zero b h = ground arith
sub-pos (suc a) b h = ground arith

mod-lt : (r m : ℕ) → r % suc m < suc m
mod-lt r m = grind arith

random_number-range :
    (a b r : ℕ)
    → a ≤ b
    → b ≤ int_max
    → b - a < int_max
    → random_number (pos a) (pos b) r ≡ some (pos (r % range_size a b + a))
unfolding random_number
random_number-range a b r h m d =
    let small = wrapped-small (range_size a b) (omega arith) in
    let below = mod-lt r (b - a) in
    rw (sub-pos a b h, small)
      (rw (wrapped-small (r % range_size a b + a) (omega (arith, below, h, m))) (ground arith))

one_more :
    (lower_range upper_range : ℤ) (rand : ℕ → ℕ) (i n : ℕ) {number : ℤ} {numbers : List ℤ}
    → random_number lower_range upper_range (rand i) ≡ some number
    → gen_from lower_range upper_range rand (suc i) n ≡ some numbers
    → gen_from lower_range upper_range rand i (suc n) ≡ some (number ∷ numbers)
unfolding gen_from
one_more lower_range upper_range rand i n e e' = rw (e, e')

-- The value lies between the two.
abbrev pub Between : ℕ → ℕ → ℤ → Type 0
Between a b z = (pos a ≤ℤ z) × (z ≤ℤ pos b)

-- For a lower bound that is not above the upper one, both from 0 to INT_MAX and not at its two ends,
-- whatever `rand` returns, there are as many numbers as rounds, and each lies within the bounds.
gen_from-Between :
    (a b : ℕ) (rand : ℕ → ℕ) (i n : ℕ)
    → a ≤ b
    → b ≤ int_max
    → b - a < int_max
    → (numbers : List ℤ) × (gen_from (pos a) (pos b) rand i n ≡ some numbers)
      × (length numbers ≡ n)
      × All (Between a b) numbers
unfolding gen_from
gen_from-Between a b rand i zero h m d = ([], refl, refl, tt)
gen_from-Between a b rand i (suc n) h m d =
    let (numbers, run, size, within) = gen_from-Between a b rand (suc i) n h m d in
    let below = mod-lt (rand i) (b - a) in
    (
      pos (rand i % range_size a b + a) ∷ numbers,
      one_more (pos a) (pos b) rand i n (random_number-range a b (rand i) h m d) run,
      ap suc size,
      ((omega arith, omega (arith, below, h)), within),
    )

pub gen_random_integer_numbers-Between :
    (a b count : ℕ) (rand : ℕ → ℕ)
    → a ≤ b
    → b ≤ int_max
    → b - a < int_max
    → (numbers : List ℤ) × (gen_random_integer_numbers (pos a) (pos b) (pos count) rand
        ≡ some numbers)
      × (length numbers ≡ count)
      × All (Between a b) numbers
unfolding gen_random_integer_numbers
gen_random_integer_numbers-Between a b count rand h m d = gen_from-Between a b rand 0 count h m d

no_values : (b : ℕ) → incr (pos b -ℤ pos (suc b)) ≡ pos 0
no_values b = ground arith

random_number-zero : (b r : ℕ) → random_number (pos (suc b)) (pos b) r ≡ none
unfolding random_number
random_number-zero b r = rw (no_values b)

stops_at_once :
    (lower_range upper_range : ℤ) (count : ℕ) (rand : ℕ → ℕ)
    → random_number lower_range upper_range (rand 0) ≡ none
    → gen_random_integer_numbers lower_range upper_range (pos (suc count)) rand ≡ none
unfolding gen_random_integer_numbers gen_from
stops_at_once lower_range upper_range count rand e = rw e

-- Where the upper bound is one below the lower one, both ints that are not negative, the first
-- number already divides by 0.
gen_random_integer_numbers-zero :
    (b count : ℕ) (rand : ℕ → ℕ)
    → gen_random_integer_numbers (pos (suc b)) (pos b) (pos (suc count)) rand ≡ none
gen_random_integer_numbers-zero b count rand =
    stops_at_once (pos (suc b)) (pos b) count rand (random_number-zero b (rand 0))
