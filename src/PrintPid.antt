-- ===== src/PrintPid.antt =====
-- week4/workshop4/semaphores/print_pid.c: child processes that print one line each, a byte at a
-- time, from a buffer in shared memory under a semaphore.
pub mod Moves
pub mod Lines
pub mod Progress
pub mod Start
use cab403work.Base.{
  ℕ, zero, suc, ◌+◌, ◌<◌, ◌≡◌, Bool, true, false, not, List, [], ◌∷◌, ◌++◌, ◌==◌, ltb,
  if◌then◌else◌, get_elem?, Option, none, some,
}
use cab403work.Base.Int.{ℤ, pos, negsuc, ltb_ℤ, pos_part}
use cab403work.Base.Text.{Bytes, codes}
use cab403work.Libc.{atoi, truncated, print_ℕ}
use cab403work.ReverseArray.{is_number, wrapped, magnitude}

abbrev pub max_child : ℕ
max_child = 10

abbrev pub shared_buffer_size : ℕ
shared_buffer_size = 1024

-- How `main` goes on from its arguments. Its `isNumber` is the same function as in the program that
-- sorts an array; `atoi` cuts the `long` of `strtol` down to an `int`.
pub data Children : Type 0 where
  wrong_usage not_integer too_many : Children
  children : ℤ → Children

unfoldable pub number_of_children : List Bytes → Children
unfolding is_number atoi
number_of_children (argument ∷ []) =
    if is_number argument == 1
    then not_integer
    else if ltb_ℤ (pos max_child) (wrapped (atoi argument))
    then too_many
    else children (wrapped (atoi argument))
number_of_children arguments = wrong_usage

-- What the first `n` calls of `fork` come to.
abbrev pub outcomes : (ℕ → Bool) → ℕ → List Bool
outcomes fork zero = []
outcomes fork (suc n) = fork 0 ∷ outcomes (λ i. fork (suc i)) n

-- The descriptor from what `shm_open` returns and whether `ftruncate` succeeds, or EXIT_FAILURE.
unfoldable pub create_shared_memory_object : Option ℕ → Bool → ℕ
create_shared_memory_object none sized = 1
create_shared_memory_object (some fd) sized = if sized then fd else 1

-- The loop of `splitProcess` in the parent: for each `fork` whether it succeeds. The number of
-- children that have been made, and whether the parent waits for them.
unfoldable pub split_process : List Bool → ℕ → ℕ × Bool
split_process [] made = (made, true)
split_process (forked ∷ forks) made =
    let rest = split_process forks (suc made) in if forked then rest else (made, false)

-- The ends of `main`: a failure, or the end with the number of children and whether they were
-- waited for.
pub data End : Type 0 where
  failure : End
  success : ℕ × Bool → End

-- Behind the checks, from the descriptor and whether `mmap` succeeds. What `splitProcess` returns is
-- not looked at.
abbrev pub from_descriptor : ℕ → Bool → List Bool → End
from_descriptor shm_fd mapped forks =
    if shm_fd == 1 then failure else if mapped then success (split_process forks 0) else failure

abbrev pub for_children : Children → Option ℕ → Bool → Bool → (ℕ → Bool) → End
for_children wrong_usage opened sized mapped fork = failure
for_children not_integer opened sized mapped fork = failure
for_children too_many opened sized mapped fork = failure
for_children (children n) opened sized mapped fork =
    from_descriptor (create_shared_memory_object opened sized) mapped (outcomes fork (pos_part n))

-- The program in its first process.
unfoldable pub first_process : List Bytes → Option ℕ → Bool → Bool → (ℕ → Bool) → End
unfolding number_of_children create_shared_memory_object split_process
first_process arguments opened sized mapped fork =
    for_children (number_of_children arguments) opened sized mapped fork

-- A child before `sem_wait`, in front of the byte at `ptr`, or behind `sem_post`.
pub data Phase : Type 0 where
  outside done : Phase
  prints : ℕ → Phase

-- The semaphore and the buffer in the shared memory, what has been printed, where the children
-- stand, and those that are done, in their order.
pub record Printing : Type 0 where
  pub child_process_lock : ℕ
  pub buffer : Bytes
  pub output : Bytes
  pub phase : ℕ → Phase
  pub finished : List ℕ

abbrev pub moved : (ℕ → Phase) → ℕ → Phase → ℕ → Phase
moved phase id p j = if j == id then p else phase j

-- The text that a child puts into the buffer, from the process ids that the system gives.
unfoldable pub child_text : (ℕ → ℕ) → ℕ → Bytes
unfolding print_ℕ
child_text getpid id = truncated shared_buffer_size (
    codes "This is child number "
    ++ (print_ℕ id ++ (codes ": - Process ID: " ++ print_ℕ (getpid id))))

module _ (getpid : ℕ → ℕ) (child_number : ℕ) where
  -- `sem_wait` and `snprintf`; a byte and the pointer; at the NUL the newline and `sem_post`.
  abbrev pub enter : ℕ → ℕ → Printing → Printing
  enter id lock s = record s {
    child_process_lock = lock;
    buffer = child_text getpid id;
    phase = moved s.phase id (prints 0);
  }

  abbrev pub put : ℕ → ℕ → ℕ → Printing → Printing
  put id ptr c s = record s {
    output = s.output ++ c ∷ [];
    phase = moved s.phase id (prints (suc ptr));
  }

  abbrev pub leave : ℕ → Printing → Printing
  leave id s = record s {
    child_process_lock = suc s.child_process_lock;
    output = s.output ++ 10 ∷ [];
    phase = moved s.phase id done;
    finished = s.finished ++ id ∷ [];
  }

  -- A step of `work` by one of the children.
  pub data Step (s : Printing) : Printing → Type 0 where
    enters :
        (id lock : ℕ)
        → id < child_number
        → s.phase id ≡ outside
        → s.child_process_lock ≡ suc lock
        → Step s (enter id lock s)
    puts :
        (id ptr c : ℕ)
        → s.phase id ≡ prints ptr
        → get_elem? s.buffer ptr ≡ some c
        → Step s (put id ptr c s)
    leaves :
        (id ptr : ℕ) → s.phase id ≡ prints ptr → get_elem? s.buffer ptr ≡ none → Step s (leave id s)

  pub data Reach (s : Printing) : Printing → Type 0 where
    here : Reach s s
    later : {s' s'' : Printing} → Reach s s' → Step s' s'' → Reach s s''

-- The children have been made, and the semaphore is 1.
abbrev pub split : Bytes → Printing
split buffer = record {
  child_process_lock = 1;
  buffer = buffer;
  output = [];
  phase = λ id. outside;
  finished = [];
}
