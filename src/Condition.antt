-- ===== src/Condition.antt =====
-- week6/workshop6/condition.c: a ring of five places between producers and consumers, with a mutex
-- and two condition variables. The threads of a kind run the same code and are counted; what a
-- thread does between taking the mutex and giving it back, also in a wait, is one step.
pub mod Consistent
pub mod Waiting
pub mod Progress
use cab403work.Base.{ℕ, zero, suc, ◌+◌, ◌%◌, ◌≡◌, Bool, true, false, ◌==◌, if◌then◌else◌}

abbrev pub buffer_size : ℕ
buffer_size = 5

-- The threads of a kind: before `pthread_mutex_lock`, in `pthread_cond_wait`, and those that have
-- been woken there and want the mutex.
pub record Threads : Type 0 where
  pub outside : ℕ
  pub waiting : ℕ
  pub woken : ℕ

-- The global variables, and how often a producer and a consumer have got through.
pub record Ring : Type 0 where
  pub buffer : ℕ → ℕ
  pub in_place : ℕ
  pub out_place : ℕ
  pub producers : Threads
  pub consumers : Threads
  pub produced : ℕ
  pub consumed : ℕ

-- Where a thread stands that takes the mutex.
pub data Entry : Type 0 where
  fresh awake : Entry

abbrev pub standing : Entry → Threads → ℕ
standing fresh t = t.outside
standing awake t = t.woken

-- `n` others stay there. The thread goes around its loop, or it waits.
abbrev pub returns : Entry → ℕ → Threads → Threads
returns fresh n t = record t { outside = suc n }
returns awake n t = record t { outside = suc t.outside; woken = n }

abbrev pub sleeps : Entry → ℕ → Threads → Threads
sleeps fresh n t = record t { outside = n; waiting = suc t.waiting }
sleeps awake n t = record t { woken = n; waiting = suc t.waiting }

-- `pthread_cond_signal` wakes one of those that wait, if there is one.
abbrev pub wake_one : ℕ → Threads → Threads
wake_one zero t = t
wake_one (suc n) t = record t { waiting = n; woken = suc t.woken }

abbrev pub signal : Threads → Threads
signal t = wake_one t.waiting t

abbrev pub store : (ℕ → ℕ) → ℕ → ℕ → ℕ → ℕ
store buffer i v j = if j == i then v else buffer j

-- The test of the producer's loop and that of the consumer's.
abbrev pub is_full : Ring → Bool
is_full s = (s.in_place + 1) % buffer_size == s.out_place

abbrev pub is_empty : Ring → Bool
is_empty s = s.in_place == s.out_place

unfoldable pub producer : Entry → ℕ → Ring → Ring
producer from n s =
    if is_full s then record s { producers = sleeps from n s.producers } else record s {
      buffer = store s.buffer s.in_place 1;
      in_place = (s.in_place + 1) % buffer_size;
      producers = returns from n s.producers;
      consumers = signal s.consumers;
      produced = suc s.produced;
    }

unfoldable pub consumer : Entry → ℕ → Ring → Ring
consumer from n s =
    if is_empty s then record s { consumers = sleeps from n s.consumers } else record s {
      buffer = store s.buffer s.out_place 0;
      out_place = (s.out_place + 1) % buffer_size;
      consumers = returns from n s.consumers;
      producers = signal s.producers;
      consumed = suc s.consumed;
    }

-- A wait may also end with no signal.
pub data Step (s : Ring) : Ring → Type 0 where
  produces : (from : Entry) (n : ℕ) → standing from s.producers ≡ suc n → Step s (producer from n s)
  consumes : (from : Entry) (n : ℕ) → standing from s.consumers ≡ suc n → Step s (consumer from n s)
  producer_wakes : Step s (record s { producers = signal s.producers })
  consumer_wakes : Step s (record s { consumers = signal s.consumers })

pub data Reach (s : Ring) : Ring → Type 0 where
  here : Reach s s
  later : {s' s'' : Ring} → Reach s s' → Step s' s'' → Reach s s''

-- The variables at the start of `main`, with the threads that it makes.
abbrev pub all_started : ℕ → ℕ → Ring
all_started producer_threads consumer_threads = record {
  buffer = λ j. 0;
  in_place = 0;
  out_place = 0;
  producers = record { outside = producer_threads; waiting = 0; woken = 0 };
  consumers = record { outside = consumer_threads; waiting = 0; woken = 0 };
  produced = 0;
  consumed = 0;
}
