-- ===== src/ReverseArray/Run.antt =====
-- week4/workshop4/sharedMemory/shm_reverse_array.c from its arguments to the sequences it prints.
use mathlib.Core.List.{Perm, Pairwise, reverse}
use cab403work.Base.{ℕ, ◌-◌, ◌≤◌, ◌<◌, ◌≡◌, ap, List, [], ◌∷◌, length, some, arith}
use cab403work.Base.Int.{ℤ, pos, ◌≤ℤ◌, pos_part}
use cab403work.Base.Text.{Bytes, All}
use cab403work.ReverseArray.{
  int_max, go_on, check_arguments, gen_random_integer_numbers, Sequences, sequences, sort_both,
  object_size, array_end, mapped,
}
use cab403work.ReverseArray.Mapped.{array_end-mapped}
use cab403work.ReverseArray.Arguments.{Writes, check_arguments-go_on}
use cab403work.ReverseArray.Numbers.{Between, gen_random_integer_numbers-Between}
use cab403work.ReverseArray.Sorted.{IsCount, Sorts, sequences-reverse}

Writes-small : (s : Bytes) (n : ℕ) → Writes s (pos n) → n ≤ int_max
Writes-small s n (digits, value, small) = omega (arith, ap pos_part value, small)

counts : (a b : ℕ) (xs : List ℤ) → b ≤ int_max → All (Between a b) xs → All IsCount xs
counts a b [] h all = tt
counts a b (x ∷ xs) h ((lo, hi), all) =
    ((omega (arith, lo), omega (arith, hi, h)), counts a b xs h all)

fits_mapping :
    (qsort : (ℤ → ℤ → ℤ) → List ℤ → List ℤ) (count : ℕ) (numbers : List ℤ)
    → array_end count ≤ mapped (object_size count)
    → sort_both qsort count numbers ≡ some (sequences qsort numbers)
unfolding sort_both
fits_mapping qsort count numbers h = ground (arith, h)

-- Where the program goes on from its arguments with bounds in order that are not 0 and INT_MAX and
-- a count of at most 1023, for a `qsort` that keeps its promise and whatever `rand` returns: the
-- child gets as many numbers as the count says, all within the bounds, and they fit into the mapping;
-- its sorted sequence has the same numbers in ascending order, the parent finds this sequence, and
-- its own, read backwards, is the same again.
pub check_arguments-sort_both :
    (qsort : (ℤ → ℤ → ℤ) → List ℤ → List ℤ) (name lower upper count : Bytes) (a b n : ℕ)
    (rand : ℕ → ℕ)
    → Sorts qsort
    → check_arguments (name ∷ lower ∷ upper ∷ count ∷ []) ≡ go_on (pos a) (pos b) (pos n)
    → a ≤ b
    → b - a < int_max
    → n ≤ 1023
    → (numbers : List ℤ) × (s : Sequences) × (gen_random_integer_numbers
          (pos a)
          (pos b)
          (pos n)
          rand
        ≡ some numbers)
      × (length numbers ≡ n)
      × All (Between a b) numbers
      × (sort_both qsort n numbers ≡ some s)
      × Perm s.ascending numbers
      × Pairwise ◌≤ℤ◌ s.ascending
      × (s.current ≡ s.ascending)
      × (reverse s.descending ≡ s.ascending)
check_arguments-sort_both qsort name lower upper count a b n rand sorts e h d few =
    let (_, u, _) = check_arguments-go_on name lower upper count (pos a) (pos b) (pos n) e in
    let small = Writes-small upper b u in
    let (numbers, run, size, within) = gen_random_integer_numbers-Between a b n rand h small d in
    let (same, sorted, found, back) =
      sequences-reverse qsort numbers sorts (counts a b numbers small within) in
    (
      numbers,
      sequences qsort numbers,
      run,
      size,
      within,
      fits_mapping qsort n numbers ((array_end-mapped n).1 few),
      same,
      sorted,
      found,
      back,
    )
