-- ===== src/Buffer.antt =====
-- week6/workshop6/buffer.c and buffer.h: a buffer of five places between threads that insert items
-- and threads that remove them, with two semaphores and a mutex. The threads of a kind run the same
-- code, so that it is enough to count how many of them stand at each place; what a thread does
-- under the mutex is one step.
pub mod Fifo
pub mod Progress
use cab403work.Base.{ℕ, zero, suc, ◌%◌, ◌≡◌, List, [], ◌∷◌, ◌++◌, ◌==◌, if◌then◌else◌}
use cab403work.Base.Int.{ℤ}

abbrev pub buffer_size : ℕ
buffer_size = 5

-- The threads of a kind: before `sem_wait`, behind it, and behind the critical section.
pub record Threads : Type 0 where
  pub before : ℕ
  pub inside : ℕ
  pub behind : ℕ

-- The variables of the program, and what has been inserted and removed so far, the oldest first.
pub record BoundedBuffer : Type 0 where
  pub buffer : ℕ → ℤ
  pub insert_pointer : ℕ
  pub remove_pointer : ℕ
  pub empty : ℕ
  pub full : ℕ
  pub producers : Threads
  pub consumers : Threads
  pub inserted : List ℤ
  pub removed : List ℤ

abbrev pub store : (ℕ → ℤ) → ℕ → ℤ → ℕ → ℤ
store buffer i item j = if j == i then item else buffer j

-- The critical section of `insert_item`.
abbrev pub insert_item : ℤ → BoundedBuffer → BoundedBuffer
insert_item item s = record s {
  buffer = store s.buffer s.insert_pointer item;
  insert_pointer = suc s.insert_pointer % buffer_size;
  inserted = s.inserted ++ item ∷ [];
}

-- The critical section of `remove_item`.
abbrev pub remove_item : BoundedBuffer → BoundedBuffer
remove_item s = record s {
  remove_pointer = suc s.remove_pointer % buffer_size;
  removed = s.removed ++ s.buffer s.remove_pointer ∷ [];
}

-- `sem_wait` lets a thread pass only where the semaphore is not 0.
pub data Step (s : BoundedBuffer) : BoundedBuffer → Type 0 where
  producer_waits :
      (e n : ℕ)
      → s.empty ≡ suc e
      → s.producers.before ≡ suc n
      → Step s (record s {
        empty = e;
        producers = record s.producers { before = n; inside = suc s.producers.inside };
      })
  producer_inserts :
      (item : ℤ) (n : ℕ)
      → s.producers.inside ≡ suc n
      → Step s (record (insert_item item s) {
        producers = record s.producers { inside = n; behind = suc s.producers.behind };
      })
  producer_posts :
      (n : ℕ)
      → s.producers.behind ≡ suc n
      → Step s (record s {
        full = suc s.full;
        producers = record s.producers { behind = n; before = suc s.producers.before };
      })
  consumer_waits :
      (f n : ℕ)
      → s.full ≡ suc f
      → s.consumers.before ≡ suc n
      → Step s (record s {
        full = f;
        consumers = record s.consumers { before = n; inside = suc s.consumers.inside };
      })
  consumer_removes :
      (n : ℕ)
      → s.consumers.inside ≡ suc n
      → Step s (record (remove_item s) {
        consumers = record s.consumers { inside = n; behind = suc s.consumers.behind };
      })
  consumer_posts :
      (n : ℕ)
      → s.consumers.behind ≡ suc n
      → Step s (record s {
        empty = suc s.empty;
        consumers = record s.consumers { behind = n; before = suc s.consumers.before };
      })

pub data Reach (s : BoundedBuffer) : BoundedBuffer → Type 0 where
  here : Reach s s
  then : {s' s'' : BoundedBuffer} → Reach s s' → Step s' s'' → Reach s s''

-- What `main` starts the threads with.
abbrev pub initialised : (ℕ → ℤ) → ℕ → ℕ → BoundedBuffer
initialised buffer producer_threads consumer_threads = record {
  buffer = buffer;
  insert_pointer = 0;
  remove_pointer = 0;
  empty = buffer_size;
  full = 0;
  producers = record { before = producer_threads; inside = 0; behind = 0 };
  consumers = record { before = consumer_threads; inside = 0; behind = 0 };
  inserted = [];
  removed = [];
}
