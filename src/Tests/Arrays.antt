-- ===== src/Tests/Arrays.antt =====
-- The program of week4 that sorts an array both ways, on examples.
use mathlib.Core.Logic.Or
use mathlib.Core.List.{
  Mem, Perm, Pairwise, reverse, mem-cons_self, mem-cons_of_mem, not-mem-nil, eq-or-mem_of_mem-cons,
}
use mathlib.Core.List.Perm
use native.Mathlib.Bridge.{le_prop}
use cab403work.Base.{
  ℕ, ◌+◌, ◌*◌, some, length, ◌≡◌, refl, sym, subst, List, [], ◌∷◌, if◌then◌else◌, if_both, arith,
}
use cab403work.Base.Int.{ℤ, pos, ◌≤ℤ◌, ltb_ℤ, ltb_ℤ→<, ltb_ℤ→≤}
use cab403work.Base.Text.{codes, All}
use cab403work.ReverseArray.{
  Sequences, sort_both, check_arguments, char_to_int, gen_random_integer_numbers,
}
use cab403work.Libc.{strtol}
use cab403work.ReverseArray.Numbers.{Between}
use cab403work.ReverseArray.Run.{check_arguments-sort_both}
use cab403work.ReverseArray.Sorted.{Orders, Sorts}

-- An insertion sort.
insert : (ℤ → ℤ → ℤ) → ℤ → List ℤ → List ℤ
insert cmp x [] = x ∷ []
insert cmp x (y ∷ ys) =
    let rest = y ∷ insert cmp x ys in if ltb_ℤ (pos 0) (cmp x y) then rest else x ∷ y ∷ ys

insertion_sort : (ℤ → ℤ → ℤ) → List ℤ → List ℤ
insertion_sort cmp [] = []
insertion_sort cmp (x ∷ xs) = insert cmp x (insertion_sort cmp xs)

insert-permutes : (cmp : ℤ → ℤ → ℤ) (x : ℤ) (ys : List ℤ) → Perm (insert cmp x ys) (x ∷ ys)
unfolding insert
insert-permutes cmp x [] = Perm.rfl
insert-permutes cmp x (y ∷ ys) =
    if_both (λ l. Perm l (x ∷ y ∷ ys)) (ltb_ℤ (pos 0) (cmp x y))
      (λ _. Perm.trans (Perm.cons y (insert-permutes cmp x ys)) (Perm.swap x y ys)) (λ _. Perm.rfl)

insertion_sort-permutes : (cmp : ℤ → ℤ → ℤ) (xs : List ℤ) → Perm (insertion_sort cmp xs) xs
unfolding insertion_sort
insertion_sort-permutes cmp [] = Perm.rfl
insertion_sort-permutes cmp (x ∷ xs) =
    Perm.trans (insert-permutes cmp x (insertion_sort cmp xs))
      (Perm.cons x (insertion_sort-permutes cmp xs))

insert-ordered :
    (P : ℤ → Type 0) (cmp : ℤ → ℤ → ℤ) (x : ℤ) (ys : List ℤ)
    → Orders P cmp
    → P x
    → ((z : ℤ) → Mem z ys → P z)
    → Pairwise (λ a b. cmp a b ≤ℤ pos 0) ys
    → Pairwise (λ a b. cmp a b ≤ℤ pos 0) (insert cmp x ys)
unfolding insert
insert-ordered P cmp x [] o px h p = Pairwise.cons (λ z m. absurd (not-mem-nil m)) Pairwise.nil
insert-ordered P cmp x (y ∷ ys) o px h (Pairwise.cons below p) =
    let py = h y mem-cons_self in
    let h' : (z : ℤ) → Mem z ys → P z = λ z m. h z (mem-cons_of_mem y m) in
    if_both (Pairwise (λ a b. cmp a b ≤ℤ pos 0)) (ltb_ℤ (pos 0) (cmp x y))
      (λ above.
        Pairwise.cons
          (λ z m.
            Or.elim le_prop (eq-or-mem_of_mem-cons ((Perm.mem_iff (insert-permutes cmp x ys)).0 m))
              (λ e.
                subst (λ w. cmp y w ≤ℤ pos 0) (sym e)
                  ((o.opposite y x py px).1 (omega (arith, ltb_ℤ→< (pos 0) (cmp x y) above))))
              (below z))
          (insert-ordered P cmp x ys o px h' p))
      (λ here'.
        let first : cmp x y ≤ℤ pos 0 = ltb_ℤ→≤ (pos 0) (cmp x y) here' in
        Pairwise.cons
          (λ z m.
            Or.elim le_prop (eq-or-mem_of_mem-cons m)
              (λ e. subst (λ w. cmp x w ≤ℤ pos 0) (sym e) first)
              (λ m'. o.transitive x y z px py (h' z m') first (below z m')))
          (Pairwise.cons below p))

insertion_sort-Sorts : Sorts insertion_sort
unfolding insertion_sort
insertion_sort-Sorts = record {
  permutes = λ cmp xs o. insertion_sort-permutes cmp xs;
  ordered = λ cmp xs o. sorted cmp xs (λ z. Mem z xs) o (λ z m. m);
}
  where
    sorted :
        (cmp : ℤ → ℤ → ℤ) (xs : List ℤ) (P : ℤ → Type 0)
        → Orders P cmp
        → ((z : ℤ) → Mem z xs → P z)
        → Pairwise (λ a b. cmp a b ≤ℤ pos 0) (insertion_sort cmp xs)
    sorted cmp [] P o h = Pairwise.nil
    sorted cmp (x ∷ xs) P o h =
        insert-ordered P cmp x (insertion_sort cmp xs) o (h x mem-cons_self)
          (λ z m. h z (mem-cons_of_mem x ((Perm.mem_iff (insertion_sort-permutes cmp xs)).0 m)))
          (sorted cmp xs P o (λ z m. h z (mem-cons_of_mem x m)))

-- What `rand` returns.
abbrev thrown : ℕ → ℕ
thrown i = i * 13 + 35

check_arguments-sort_both_example :
    (numbers : List ℤ) × (s : Sequences) × (gen_random_integer_numbers
        (pos 2)
        (pos 9)
        (pos 3)
        thrown
      ≡ some numbers)
    × (length numbers ≡ 3)
    × All (Between 2 9) numbers
    × (sort_both insertion_sort 3 numbers ≡ some s)
    × Perm s.ascending numbers
    × Pairwise ◌≤ℤ◌ s.ascending
    × (s.current ≡ s.ascending)
    × (reverse s.descending ≡ s.ascending)
unfolding check_arguments char_to_int strtol
check_arguments-sort_both_example =
    check_arguments-sort_both insertion_sort (codes "/sorted") (codes "2") (codes "9") (codes "3") 2
      9 3 thrown insertion_sort-Sorts refl (omega arith) (omega arith) (omega arith)
