-- ===== src/Tests/Buffers.antt =====
-- week6/workshop6/buffer.c with one producer and two consumers.
use cab403work.Base.{◌≡◌, ◌≤◌, ◌%◌, refl, List, ◌++◌, length, arith}
use cab403work.Base.Int.{ℤ, pos}
use cab403work.Buffer.{
  buffer_size, insert_item, BoundedBuffer, Step, producer_waits, producer_inserts, Reach, here,
  then, initialised,
}
use cab403work.Buffer.Fifo.{Ring, Reach-Fifo}
use cab403work.Buffer.Progress.{Reach_goes_on}

abbrev waited : BoundedBuffer
waited = record (initialised (λ i. pos 0) 1 2) {
  empty = 4;
  producers = record { before = 0; inside = 1; behind = 0 };
}

waits : Step (initialised (λ i. pos 0) 1 2) waited
waits = producer_waits 4 0 refl refl

abbrev stored : BoundedBuffer
stored = record (insert_item (pos 7) waited) {
  producers = record { before = 0; inside = 0; behind = 1 };
}

reaches_stored : Reach (initialised (λ i. pos 0) 1 2) stored
reaches_stored = then (then here waits) (producer_inserts (pos 7) 0 refl)

Reach-Fifo_example :
    (queue : List ℤ) × (stored.inserted ≡ stored.removed ++ queue)
    × (length queue ≤ buffer_size)
    × Ring stored.buffer (length stored.removed) queue
    × (stored.remove_pointer ≡ length stored.removed % buffer_size)
Reach-Fifo_example = Reach-Fifo (λ i. pos 0) 1 2 stored reaches_stored

Reach_goes_on_example : (s' : BoundedBuffer) × Step stored s'
Reach_goes_on_example =
    Reach_goes_on (λ i. pos 0) 1 2 stored (omega arith) (omega arith) reaches_stored
