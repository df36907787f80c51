-- ===== src/PrintPid/Start.antt =====
-- How many children the first process of week4/workshop4/semaphores/print_pid.c makes.
use cab403work.Base.{
  ap, ℕ, zero, suc, ◌+◌, ◌≤◌, ◌<◌, ◌≡◌, refl, Bool, Bool-cases, inl, inr, true, false, List, [],
  ◌∷◌, ◌==◌, if_both, Option, arith,
}
use cab403work.Base.Int.{ℤ, pos, negsuc, ltb_ℤ, pos_part}
use cab403work.Base.Text.{Bytes}
use cab403work.Libc.{atoi}
use cab403work.ReverseArray.{is_number, wrapped}
use cab403work.PrintPid.{
  max_child, Children, wrong_usage, not_integer, too_many, children, number_of_children, outcomes,
  split_process, create_shared_memory_object, End, failure, success, from_descriptor, for_children,
  first_process,
}

-- `k` calls of `fork` have succeeded, at most `n`; the parent waits if these are all, and otherwise
-- the next one has failed.
abbrev Splits : (ℕ → Bool) → ℕ → ℕ → ℕ × Bool → Type 0
Splits fork n k (made, waits) =
    (made ≡ k)
    × (k ≤ n)
    × ((j : ℕ) → j < k → fork j ≡ true)
    × (waits ≡ true → k ≡ n)
    × (waits ≡ false → fork k ≡ false)

-- The same behind `before` children.
abbrev SplitsOn : (ℕ → Bool) → ℕ → ℕ → ℕ → ℕ × Bool → Type 0
SplitsOn fork n before k (made, waits) =
    (made ≡ before + k)
    × (k ≤ n)
    × ((j : ℕ) → j < k → fork j ≡ true)
    × (waits ≡ true → k ≡ n)
    × (waits ≡ false → fork k ≡ false)

one_more :
    (fork : ℕ → Bool) (n before k : ℕ) (r : ℕ × Bool)
    → fork 0 ≡ true
    → SplitsOn (λ i. fork (suc i)) n (suc before) k r
    → SplitsOn fork (suc n) before (suc k) r
one_more fork n before k (made, waits) e (m, b, all, w, f) =
    (omega (arith, m), omega arith, first, (λ h. ap suc (w h)), f)
  where
    first : (j : ℕ) → j < suc k → fork j ≡ true
    first zero h = e
    first (suc j) h = all j (omega arith)

split_process-Splits :
    (fork : ℕ → Bool) (n before : ℕ)
    → (k : ℕ) × SplitsOn fork n before k (split_process (outcomes fork n) before)
unfolding split_process
split_process-Splits fork zero before =
    (0, (omega arith, omega arith, (λ j h. absurd (omega arith)), (λ h. refl), (λ h. cc)))
split_process-Splits fork (suc n) before =
    let (k, s) = split_process-Splits (λ i. fork (suc i)) n (suc before) in
    elim (Bool-cases (fork 0)) [
      | inl e ↦ (suc k, rw e (one_more fork n before k _ e s))
      | inr e ↦ (
        0,
        rw e (omega arith, omega arith, (λ j h. absurd (omega arith)), (λ h. cc), (λ h. refl)),
      )
    ]

abbrev Starts : (ℕ → Bool) → End → Type 0
Starts fork failure = Unit {0}
Starts fork (success r) = (n k : ℕ) × (n ≤ max_child) × Splits fork n k r

IsSmall : Children → Type 0
IsSmall wrong_usage = Unit {0}
IsSmall not_integer = Unit {0}
IsSmall too_many = Unit {0}
IsSmall (children z) = pos_part z ≤ max_child

small_part : (z : ℤ) → ltb_ℤ (pos max_child) z ≡ false → pos_part z ≤ max_child
small_part (pos n) h = ground arith
small_part (negsuc n) h = omega arith

number_of_children-IsSmall : (arguments : List Bytes) → IsSmall (number_of_children arguments)
unfolding number_of_children IsSmall
number_of_children-IsSmall [] = tt
number_of_children-IsSmall (argument ∷ []) =
    if_both IsSmall (is_number argument == 1) (λ _. tt)
      (λ _.
        if_both IsSmall (ltb_ℤ (pos max_child) (wrapped (atoi argument))) (λ _. tt)
          (λ h. small_part (wrapped (atoi argument)) h))
number_of_children-IsSmall (argument ∷ other ∷ arguments) = tt

split-Starts :
    (fork : ℕ → Bool) (n : ℕ)
    → n ≤ max_child
    → Starts fork (success (split_process (outcomes fork n) 0))
split-Starts fork n h =
    let (k, (m, b, all, w, f)) = split_process-Splits fork n 0 in
    (n, k, h, (omega (arith, m), b, all, w, f))

from_descriptor-Starts :
    (fork : ℕ → Bool) (n shm_fd : ℕ) (mapped : Bool)
    → n ≤ max_child
    → Starts fork (from_descriptor shm_fd mapped (outcomes fork n))
from_descriptor-Starts fork n shm_fd mapped h =
    if_both (Starts fork) (shm_fd == 1) (λ _. tt)
      (λ _. if_both (Starts fork) mapped (λ _. split-Starts fork n h) (λ _. tt))

for_children-Starts :
    (c : Children) (opened : Option ℕ) (sized mapped : Bool) (fork : ℕ → Bool)
    → IsSmall c
    → Starts fork (for_children c opened sized mapped fork)
unfolding IsSmall
for_children-Starts wrong_usage opened sized mapped fork h = tt
for_children-Starts not_integer opened sized mapped fork h = tt
for_children-Starts too_many opened sized mapped fork h = tt
for_children-Starts (children z) opened sized mapped fork h =
    from_descriptor-Starts fork (pos_part z) (create_shared_memory_object opened sized) mapped h

-- For all arguments and all results of the calls of the system: at most ten children are made, those whose `fork` has succeeded up to the first that fails, and
-- the program fails or waits for them all, or it has come to a `fork` that fails and waits for none.
first_process-Starts :
    (arguments : List Bytes) (opened : Option ℕ) (sized mapped : Bool) (fork : ℕ → Bool)
    → Starts fork (first_process arguments opened sized mapped fork)
unfolding first_process
first_process-Starts arguments opened sized mapped fork =
    for_children-Starts (number_of_children arguments) opened sized mapped fork
      (number_of_children-IsSmall arguments)
