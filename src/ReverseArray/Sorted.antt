-- ===== src/ReverseArray/Sorted.antt =====
-- week4/workshop4/sharedMemory: the two orders of `compareA` and `compareB`, and the sequences that
-- the processes of shm_reverse_array.c print.
use mathlib.Core.Logic.Or
use mathlib.Core.List.{
  Mem, Perm, Pairwise, reverse, reverse_perm, Pairwise-reverse, mem-cons_self, mem-cons_of_mem,
  not-mem-nil, eq-or-mem_of_mem-cons,
}
use mathlib.Core.List.Perm
use mathlib.Core.List.Pairwise
use native.Mathlib.Bridge.{le_prop}
use cab403work.Base.{zero, suc, ◌≡◌, refl, sym, ap, ◌∙◌, ◌↔◌, subst, List, [], ◌∷◌, arith}
use cab403work.Base.Int.{ℤ, pos, negsuc, ◌≤ℤ◌, ◌-ℤ◌, eq_of_parts}
use cab403work.Base.Text.{All}
use cab403work.ReverseArray.{int_max, wrapped, compare_a, compare_b, sequences}
use cab403work.ReverseArray.Numbers.{Between}

-- A comparison that orders the values with the property `P`: the signs of the two orders of its
-- arguments agree, and it is transitive.
pub record Orders (P : ℤ → Type 0) (cmp : ℤ → ℤ → ℤ) : Type 0 where
  pub opposite : (x y : ℤ) → P x → P y → (cmp x y ≤ℤ pos 0) ↔ (pos 0 ≤ℤ cmp y x)
  pub transitive :
      (x y z : ℤ) → P x → P y → P z → cmp x y ≤ℤ pos 0 → cmp y z ≤ℤ pos 0 → cmp x z ≤ℤ pos 0

-- What `qsort` promises where the comparison orders the elements of the array.
pub record Sorts (qsort : (ℤ → ℤ → ℤ) → List ℤ → List ℤ) : Type 0 where
  pub permutes :
      (cmp : ℤ → ℤ → ℤ) (xs : List ℤ) → Orders (λ z. Mem z xs) cmp → Perm (qsort cmp xs) xs
  pub ordered :
      (cmp : ℤ → ℤ → ℤ) (xs : List ℤ)
      → Orders (λ z. Mem z xs) cmp
      → Pairwise (λ x y. cmp x y ≤ℤ pos 0) (qsort cmp xs)

abbrev pub IsCount : ℤ → Type 0
IsCount = Between 0 int_max

-- The sign of a wrapped difference is that of the difference, where neither number is negative.
difference-sign :
    (x y : ℤ)
    → IsCount x
    → IsCount y
    → (wrapped (x -ℤ y) ≤ℤ pos 0 ↔ x ≤ℤ y) × (pos 0 ≤ℤ wrapped (x -ℤ y) ↔ y ≤ℤ x)
difference-sign (pos zero) (pos zero) p q = ground arith
difference-sign (pos zero) (pos (suc b)) p q = ground arith
difference-sign (pos (suc a)) (pos zero) p q = ground arith
difference-sign (pos (suc a)) (pos (suc b)) p q = ground arith
difference-sign (pos a) (negsuc b) p q = absurd (omega (arith, q.0))
difference-sign (negsuc a) y p q = absurd (omega (arith, p.0))

IsCount-prop : (z : ℤ) → IsProp (IsCount z)
IsCount-prop z = hlevel (le_prop)

compare_a-Orders : Orders IsCount compare_a
unfolding compare_a
compare_a-Orders = record {
  opposite = λ x y p q. ground (arith, difference-sign x y p q, difference-sign y x q p);
  transitive = λ x y z p q r h k.
      ground (arith, difference-sign x y p q, difference-sign y z q r, difference-sign x z p r);
}

compare_b-Orders : Orders IsCount compare_b
unfolding compare_b
compare_b-Orders = record {
  opposite = λ x y p q. ground (arith, difference-sign x y p q, difference-sign y x q p);
  transitive = λ x y z p q r h k.
      ground (arith, difference-sign y x q p, difference-sign z y r q, difference-sign z x r p);
}

-- A property of all elements holds of each.
All-mem : (xs : List ℤ) (z : ℤ) → All IsCount xs → Mem z xs → IsCount z
All-mem [] z h m = absurd (not-mem-nil m)
All-mem (x ∷ xs) z h m =
    Or.elim (IsCount-prop z) (eq-or-mem_of_mem-cons m) (λ e. subst IsCount (sym e) h.0)
      (All-mem xs z h.1)

Orders-mem :
    (cmp : ℤ → ℤ → ℤ) (xs : List ℤ)
    → All IsCount xs
    → Orders IsCount cmp
    → Orders (λ z. Mem z xs) cmp
Orders-mem cmp xs h o = record {
  opposite = λ x y p q. o.opposite x y (All-mem xs x h p) (All-mem xs y h q);
  transitive =
      λ x y z p q r. o.transitive x y z (All-mem xs x h p) (All-mem xs y h q) (All-mem xs z h r);
}

mem-All : (xs : List ℤ) → ((z : ℤ) → Mem z xs → IsCount z) → All IsCount xs
mem-All [] h = tt
mem-All (x ∷ xs) h = (h x mem-cons_self, mem-All xs (λ z m. h z (mem-cons_of_mem x m)))

All-perm : (xs ys : List ℤ) → Perm ys xs → All IsCount xs → All IsCount ys
All-perm xs ys p h = mem-All ys (λ z m. All-mem xs z h ((Perm.mem_iff p).0 m))

-- A relation may be exchanged for one that agrees with it on the elements.
Pairwise-on :
    {R S : ℤ → ℤ → Type 0} (xs : List ℤ)
    → All IsCount xs
    → ((a b : ℤ) → IsCount a → IsCount b → R a b → S a b)
    → Pairwise R xs
    → Pairwise S xs
Pairwise-on [] h f p = Pairwise.nil
Pairwise-on (x ∷ xs) h f (Pairwise.cons below p) =
    Pairwise.cons (λ y m. f x y h.0 (All-mem xs y h.1 m) (below y m)) (Pairwise-on xs h.1 f p)

-- The first of an ascending list is the least.
head-least : (x : ℤ) (xs : List ℤ) (z : ℤ) → Pairwise ◌≤ℤ◌ (x ∷ xs) → Mem z (x ∷ xs) → x ≤ℤ z
head-least x xs z (Pairwise.cons below p) m =
    Or.elim le_prop (eq-or-mem_of_mem-cons m) (λ e. subst (λ y. x ≤ℤ y) (sym e) (omega arith))
      (below z)

-- A list has one ascending order.
ascending_unique : (xs ys : List ℤ) → Pairwise ◌≤ℤ◌ xs → Pairwise ◌≤ℤ◌ ys → Perm xs ys → xs ≡ ys
ascending_unique [] ys p q same = Perm.nil-eq same
ascending_unique (x ∷ xs) [] p q same = Perm.eq-nil same
ascending_unique (x ∷ xs) (y ∷ ys) p q same =
    let first : x ≡ y = eq_of_parts x y (
      omega (
        arith,
        head-least x xs y p ((Perm.mem_iff same).1 mem-cons_self),
        head-least y ys x q ((Perm.mem_iff same).0 mem-cons_self),
      )) in
    let others = subst (λ z. Perm (x ∷ xs) (z ∷ ys)) (sym first) same in
    ap (λ l. x ∷ l)
      (ascending_unique xs ys (Pairwise.of_cons p) (Pairwise.of_cons q) (Perm.cons_inv others))
    ∙ ap (λ z. z ∷ ys) first

in_order_a : (x y : ℤ) → IsCount x → IsCount y → compare_a x y ≤ℤ pos 0 → x ≤ℤ y
unfolding compare_a
in_order_a x y p q = (difference-sign x y p q).0.0

in_order_b : (x y : ℤ) → IsCount x → IsCount y → compare_b x y ≤ℤ pos 0 → y ≤ℤ x
unfolding compare_b
in_order_b x y p q = (difference-sign y x q p).0.0

-- For a `qsort` that keeps its promise and an array of numbers from 0 to INT_MAX: the child's
-- sequence is the numbers in ascending order, the parent finds that sequence, and its own, read
-- backwards, is the same again.
pub sequences-reverse :
    (qsort : (ℤ → ℤ → ℤ) → List ℤ → List ℤ) (numbers : List ℤ)
    → Sorts qsort
    → All IsCount numbers
    → let s = sequences qsort numbers in
      Perm s.ascending numbers
      × Pairwise ◌≤ℤ◌ s.ascending
      × (s.current ≡ s.ascending)
      × (reverse s.descending ≡ s.ascending)
sequences-reverse qsort numbers sorts h =
    let up = qsort compare_a numbers in
    let down = qsort compare_b up in
    let by_a = Orders-mem compare_a numbers h compare_a-Orders in
    let kept = sorts.permutes compare_a numbers by_a in
    let h' = All-perm numbers up kept h in
    let by_b = Orders-mem compare_b up h' compare_b-Orders in
    let kept' = sorts.permutes compare_b up by_b in
    let rising = Pairwise-on up h' in_order_a (sorts.ordered compare_a numbers by_a) in
    let falling =
      Pairwise-on down (All-perm up down kept' h') in_order_b (sorts.ordered compare_b up by_b) in
    (
      kept,
      rising,
      refl,
      ascending_unique (reverse down) up ((Pairwise-reverse (λ a b. le_prop)).1 falling) rising
          (Perm.trans (reverse_perm down) kept'),
    )
