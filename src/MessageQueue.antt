-- ===== src/MessageQueue.antt =====
-- week5/workshop5/threads/msgq.c: a stack of five messages between one producer and one consumer,
-- with no lock. Each statement on the shared record is a step of its own.
pub mod Blocked
pub mod Filled
pub mod Bounds
use cab403work.Base.{
  ℕ, zero, suc, ◌-◌, Bool, true, false, ◌==◌, ltb, if◌then◌else◌, List, [], ◌∷◌, ◌++◌,
}

abbrev pub buffer_size : ℕ
buffer_size = 5

-- Where the producer stands: at the test of `keep_running`, in the blocking send with its message,
-- in front of the write, of the test for a full buffer, and of `is_room = FALSE`, or at its end. A
-- write outside the array is undefined; the thread ends there.
pub data Producer : Type 0 where
  produces told_to_stop overflowed : Producer
  sends unblocked : ℕ → Producer
  counts shuts : Producer

-- The consumer: at the test of `keep_running`, in the blocking receive, in front of the read and of
-- `is_room = TRUE`, or at its end. It prints the message that it has read.
pub data Consumer : Type 0 where
  consumes receives takes stopped : Consumer
  opens : ℕ → Consumer

pub record Queue : Type 0 where
  pub buffer : ℕ → ℕ
  pub keep_running : Bool
  pub position : ℕ
  pub is_room : Bool
  pub producer : Producer
  pub consumer : Consumer
  pub printed : List ℕ

abbrev pub write : (ℕ → ℕ) → ℕ → ℕ → ℕ → ℕ
write buffer i message j = if j == i then message else buffer j

-- One step of `producer_function`; `time` is what the clock says.
abbrev pub producer_at : Producer → ℕ → Queue → Queue
producer_at produces time q = record q {
  producer = if q.keep_running then sends time else told_to_stop;
}
producer_at (sends message) time q = record q {
  producer = if q.is_room then unblocked message else sends message;
}
producer_at (unblocked message) time q =
    if ltb q.position buffer_size
    then record q {
      buffer = write q.buffer q.position message;
      position = suc q.position;
      producer = counts;
    }
    else record q { producer = overflowed }
producer_at counts time q = record q {
  producer = if q.position == buffer_size then shuts else produces;
}
producer_at shuts time q = record q { is_room = false; producer = produces }
producer_at told_to_stop time q = q
producer_at overflowed time q = q

unfoldable pub producer_function : ℕ → Queue → Queue
producer_function time q = producer_at q.producer time q

-- One step of `consumer_function`.
abbrev pub consumer_at : Consumer → Queue → Queue
consumer_at consumes q = record q { consumer = if q.keep_running then receives else stopped }
consumer_at receives q = record q { consumer = if q.position == 0 then receives else takes }
consumer_at takes q = record q {
  position = q.position - 1;
  consumer = opens (q.buffer (q.position - 1));
}
consumer_at (opens message) q = record q {
  is_room = true;
  consumer = consumes;
  printed = q.printed ++ message ∷ [];
}
consumer_at stopped q = q

unfoldable pub consumer_function : Queue → Queue
consumer_function q = consumer_at q.consumer q

-- The steps of the two threads, and `main` when the key is hit.
pub data Step (q : Queue) : Queue → Type 0 where
  producer_steps : (time : ℕ) → Step q (producer_function time q)
  consumer_steps : Step q (consumer_function q)
  told : Step q (record q { keep_running = false })

pub data Reach (q : Queue) : Queue → Type 0 where
  here : Reach q q
  later : {q' q'' : Queue} → Reach q q' → Step q' q'' → Reach q q''

-- The record as `main` hands it to the threads.
abbrev pub messages : (ℕ → ℕ) → Queue
messages buffer = record {
  buffer = buffer;
  keep_running = true;
  position = 0;
  is_room = true;
  producer = produces;
  consumer = consumes;
  printed = [];
}
