-- ===== src/ReverseArray.antt =====
-- week4/workshop4/sharedMemory: shm_reverse_array.c and ancillary_functions.c. A child process fills
-- an array in shared memory with random numbers and sorts it, and its parent sorts it the other way
-- round. An `int` is the integer that it stands for; where an operation leaves its range it wraps
-- around, which C does not promise.
pub mod Arguments
pub mod Numbers
pub mod Sorted
pub mod Mapped
pub mod Run
use mathlib.Core.List.{reverse}
use cab403work.Base.{
  ℕ, zero, suc, ◌+◌, ◌-◌, ◌*◌, ◌/◌, ◌%◌, ◌^◌, Bool, true, false, not, ◌&&◌, ◌||◌, List, [], ◌∷◌,
  ◌++◌, ◌==◌, ltb, leb, if◌then◌else◌, length, map, Option, none, some,
}
use cab403work.Base.Int.{ℤ, pos, negsuc, ◌+ℤ◌, ◌-ℤ◌, incr, ltb_ℤ, pos_part, neg_part}
use cab403work.Base.Text.{Bytes}
use cab403work.Libc.{is_digit, streq, Strtol, strtol}

abbrev pub int_max : ℕ
int_max = 2 ^ 31 - 1

-- The `int` with these 32 bits.
abbrev pub from_bits : ℕ → ℤ
from_bits w = if ltb w (2 ^ 31) then pos w else negsuc (2 ^ 32 - w - 1)

abbrev pub wrapped : ℤ → ℤ
wrapped (pos n) = from_bits (n % 2 ^ 32)
wrapped (negsuc n) = from_bits (2 ^ 32 - 1 - n % 2 ^ 32)

abbrev pub magnitude : ℤ → ℕ
magnitude (pos n) = n
magnitude (negsuc n) = suc n

-- 1 for a name that is not valid.
unfoldable pub check_sh_mem_name : Bytes → ℕ
check_sh_mem_name [] = 1
check_sh_mem_name (c ∷ s) = if not (c == b'/') || length (c ∷ s) == 1 then 1 else 0

-- 0 where every byte is a digit.
unfoldable pub is_number : Bytes → ℕ
is_number [] = 0
is_number (c ∷ s) = let rest = is_number s in if is_digit c then rest else 1

-- The value behind `out` where the function returns 1.
abbrev pub to_int : Bytes → Strtol → Option ℤ
to_int value r =
    if streq r.end value
    then none
    else if not (streq r.end [])
    then none
    else if r.erange
    then none
    else if ltb_ℤ (pos int_max) r.value || ltb_ℤ r.value (negsuc int_max)
    then none
    else some r.value

unfoldable pub char_to_int : Bytes → Option ℤ
unfolding strtol streq
char_to_int value = to_int value (strtol value)

-- How `main` goes on: the ends with a message, or the numbers that it goes on with.
pub data Start : Type 0 where
  usage invalid_name invalid_lower invalid_upper invalid_count : Start
  no_lower no_upper no_count : Start
  go_on : ℤ → ℤ → ℤ → Start

abbrev pub converted : Option ℤ → Option ℤ → Option ℤ → Start
converted none upper count = no_lower
converted (some lower_range) none count = no_upper
converted (some lower_range) (some upper_range) none = no_count
converted (some lower_range) (some upper_range) (some count) = go_on lower_range upper_range count

-- The checks of the arguments behind the program's name.
unfoldable pub check_arguments : List Bytes → Start
unfolding check_sh_mem_name is_number char_to_int
check_arguments (name ∷ lower ∷ upper ∷ count ∷ []) =
    if check_sh_mem_name name == 1
    then invalid_name
    else if is_number lower == 1
    then invalid_lower
    else if is_number upper == 1
    then invalid_upper
    else if is_number count == 1
    then invalid_count
    else converted (char_to_int lower) (char_to_int upper) (char_to_int count)
check_arguments arguments = usage

-- `rand() % modulus + lower`, for what `rand` returns; none where the division by 0 ends the
-- process.
unfoldable pub random_number : ℤ → ℤ → ℕ → Option ℤ
random_number lower_range upper_range r =
    let modulus = wrapped (incr (upper_range -ℤ lower_range)) in
    let size = magnitude modulus in
    if size == 0 then none else some (wrapped (pos (r % size) +ℤ lower_range))

abbrev pub then_number : Option ℤ → Option (List ℤ) → Option (List ℤ)
then_number none numbers = none
then_number (some number) none = none
then_number (some number) (some numbers) = some (number ∷ numbers)

-- The loop from the round `i` on, with `n` rounds to go; `rand i` is what `rand` returns in the
-- round `i`.
unfoldable pub gen_from : ℤ → ℤ → (ℕ → ℕ) → ℕ → ℕ → Option (List ℤ)
unfolding random_number
gen_from lower_range upper_range rand i zero = some []
gen_from lower_range upper_range rand i (suc n) =
    then_number (random_number lower_range upper_range (rand i))
      (gen_from lower_range upper_range rand (suc i) n)

unfoldable pub gen_random_integer_numbers : ℤ → ℤ → ℤ → (ℕ → ℕ) → Option (List ℤ)
unfolding gen_from
gen_random_integer_numbers lower_range upper_range count rand =
    gen_from lower_range upper_range rand 0 (pos_part count)

unfoldable pub compare_a : ℤ → ℤ → ℤ
compare_a val1 val2 = wrapped (val1 -ℤ val2)

unfoldable pub compare_b : ℤ → ℤ → ℤ
compare_b val1 val2 = wrapped (val2 -ℤ val1)

-- The sequences that the two processes print, from the numbers that the child copies into the
-- memory and the `qsort` of the library.
pub record Sequences : Type 0 where
  pub original : List ℤ
  pub ascending : List ℤ
  pub current : List ℤ
  pub descending : List ℤ

abbrev pub sequences : ((ℤ → ℤ → ℤ) → List ℤ → List ℤ) → List ℤ → Sequences
sequences qsort random_numbers =
    let array_data = qsort compare_a random_numbers in
    record {
      original = random_numbers;
      ascending = array_data;
      current = array_data;
      descending = qsort compare_b array_data;
    }

-- The bytes of an `int`, and those of `data_share_t` in front of its array.
abbrev pub int_size : ℕ
int_size = 4

-- The size of the shared memory and of its mapping, and the bytes that the array reaches to.
unfoldable pub object_size : ℕ → ℕ
object_size arr_size = int_size + arr_size

unfoldable pub array_end : ℕ → ℕ
array_end count = int_size + count * int_size

-- The bytes that can be used of a mapping of `size` bytes: whole pages of 4096 bytes.
abbrev pub mapped : ℕ → ℕ
mapped size = (size + 4095) / 4096 * 4096

-- None where the child copies the numbers past the end of its mapping.
unfoldable pub sort_both : ((ℤ → ℤ → ℤ) → List ℤ → List ℤ) → ℕ → List ℤ → Option Sequences
unfolding compare_a compare_b object_size array_end
sort_both qsort count random_numbers =
    if leb (array_end count) (mapped (object_size count))
    then some (sequences qsort random_numbers)
    else none
