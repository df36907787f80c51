-- ===== src/Buffer/Fifo.antt =====
-- The buffer of week6/workshop6/buffer.c is a first-in first-out queue of at most five items, for any
-- number of threads.
use cab403work.Base.{
  ℕ, suc, ◌+◌, ◌%◌, ◌≤◌, ◌<◌, ◌≡◌, ◌≢◌, refl, sym, ap, ◌∙◌, arith, List, [], ◌∷◌, ◌++◌, length,
  append_assoc, ==_iff,
}
use cab403work.Base.Int.{ℤ}
use cab403work.Buffer.{
  buffer_size, BoundedBuffer, store, insert_item, remove_item, Step, producer_waits,
  producer_inserts, producer_posts, consumer_waits, consumer_removes, consumer_posts, Reach, here,
  then, initialised,
}

-- The places from number `r` on, counted without wrap-around, hold the queue.
abbrev pub Ring : (ℕ → ℤ) → ℕ → List ℤ → Type 0
Ring buffer r [] = Unit {0}
Ring buffer r (x ∷ queue) = (buffer (r % buffer_size) ≡ x) × Ring buffer (suc r) queue

apart : (i w : ℕ) → i < w → w < i + 5 → i % 5 ≢ w % 5
apart i w lt near = omega arith

store_same : (buffer : ℕ → ℤ) (i : ℕ) (x : ℤ) → store buffer i x i ≡ x
store_same buffer i x = simp ((==_iff i i).1 refl)

store_other : (buffer : ℕ → ℤ) (i j : ℕ) (x : ℤ) → j ≢ i → store buffer i x j ≡ buffer j
store_other buffer i j x ne = ground (arith, ==_iff j i)

Ring-store :
    (buffer : ℕ → ℤ) (w : ℕ) (x : ℤ) (r : ℕ) (queue : List ℤ)
    → r + length queue ≡ w
    → length queue < 5
    → Ring buffer r queue
    → Ring (store buffer (w % buffer_size) x) r (queue ++ x ∷ [])
Ring-store buffer w x r [] e lt ring =
    let at : r ≡ w = omega arith in
    (
      ap (λ i. store buffer (w % buffer_size) x (i % buffer_size)) at
          ∙ store_same buffer (w % buffer_size) x,
      tt,
    )
Ring-store buffer w x r (y ∷ queue) e lt (here_y, ring) = (
  store_other buffer (w % buffer_size) (r % buffer_size) x (apart r w (omega arith) (omega arith))
      ∙ here_y,
  Ring-store buffer w x (suc r) queue (omega arith) (omega arith) ring,
)

-- What holds between the steps, with the queue of the items that have not been removed.
pub record Holds (s : BoundedBuffer) (queue : List ℤ) : Type 0 where
  pub order : s.inserted ≡ s.removed ++ queue
  pub ring : Ring s.buffer (length s.removed) queue
  pub insert_at : s.insert_pointer ≡ (length s.removed + length queue) % buffer_size
  pub remove_at : s.remove_pointer ≡ length s.removed % buffer_size
  pub places : s.empty + s.producers.inside + length queue + s.consumers.behind ≡ buffer_size
  pub items : s.producers.behind + s.full + s.consumers.inside ≡ length queue

length-append_one : (xs : List ℤ) (x : ℤ) → length (xs ++ x ∷ []) ≡ suc (length xs)
length-append_one [] x = refl
length-append_one (y ∷ xs) x = ap suc (length-append_one xs x)

inserts-Holds :
    (s : BoundedBuffer) (item : ℤ) (n : ℕ) (queue : List ℤ)
    → s.producers.inside ≡ suc n
    → Holds s queue
    → Holds
        (record (insert_item item s) {
          producers = record s.producers { inside = n; behind = suc s.producers.behind };
        })
        (queue ++ item ∷ [])
inserts-Holds s item n queue e h =
    let longer = length-append_one queue item in
    let places = h.places in
    let items = h.items in
    record {
      order = ap (λ l. l ++ item ∷ []) h.order ∙ append_assoc s.removed queue (item ∷ []);
      ring = rw h.insert_at (
          Ring-store s.buffer (length s.removed + length queue) item (length s.removed) queue refl
            (omega arith) h.ring);
      insert_at = let at = h.insert_at in omega arith;
      remove_at = h.remove_at;
      places = omega arith;
      items = omega arith;
    }

removes-Holds :
    (s : BoundedBuffer) (n : ℕ) (x : ℤ) (queue : List ℤ)
    → s.consumers.inside ≡ suc n
    → Holds s (x ∷ queue)
    → Holds
        (record (remove_item s) {
          consumers = record s.consumers { inside = n; behind = suc s.consumers.behind };
        })
        queue
removes-Holds s n x queue e h =
    let places = h.places in
    let items = h.items in
    let oldest : s.buffer s.remove_pointer ≡ x = ap s.buffer h.remove_at ∙ h.ring.0 in
    let longer = length-append_one s.removed (s.buffer s.remove_pointer) in
    record {
      order =
          h.order
          ∙ sym (append_assoc s.removed (x ∷ []) queue)
          ∙ ap (λ y. (s.removed ++ y ∷ []) ++ queue) (sym oldest);
      ring = rw longer h.ring.1;
      insert_at = let at = h.insert_at in omega arith;
      remove_at = let at = h.remove_at in omega arith;
      places = omega arith;
      items = omega arith;
    }

-- Some queue holds.
abbrev pub IsSound : BoundedBuffer → Type 0
IsSound s = (queue : List ℤ) × Holds s queue

Step-IsSound : {s s' : BoundedBuffer} → Step s s' → IsSound s → IsSound s'
Step-IsSound {s} (producer_waits e n can some_one) (queue, h) =
    let places = h.places in
    (
      queue,
      record {
        order = h.order;
        ring = h.ring;
        insert_at = h.insert_at;
        remove_at = h.remove_at;
        places = omega arith;
        items = h.items;
      },
    )
Step-IsSound {s} (producer_inserts item n some_one) (queue, h) =
    (queue ++ item ∷ [], inserts-Holds s item n queue some_one h)
Step-IsSound {s} (producer_posts n some_one) (queue, h) =
    let items = h.items in
    (
      queue,
      record {
        order = h.order;
        ring = h.ring;
        insert_at = h.insert_at;
        remove_at = h.remove_at;
        places = h.places;
        items = omega arith;
      },
    )
Step-IsSound {s} (consumer_waits f n can some_one) (queue, h) =
    let items = h.items in
    (
      queue,
      record {
        order = h.order;
        ring = h.ring;
        insert_at = h.insert_at;
        remove_at = h.remove_at;
        places = h.places;
        items = omega arith;
      },
    )
Step-IsSound {s} (consumer_removes n some_one) ([], h) = let items = h.items in absurd (omega arith)
Step-IsSound {s} (consumer_removes n some_one) (x ∷ queue, h) =
    (queue, removes-Holds s n x queue some_one h)
Step-IsSound {s} (consumer_posts n some_one) (queue, h) =
    let places = h.places in
    (
      queue,
      record {
        order = h.order;
        ring = h.ring;
        insert_at = h.insert_at;
        remove_at = h.remove_at;
        places = omega arith;
        items = h.items;
      },
    )

pub Reach-IsSound : {s s' : BoundedBuffer} → Reach s s' → IsSound s → IsSound s'
Reach-IsSound here h = h
Reach-IsSound (then r s) h = Step-IsSound s (Reach-IsSound r h)

pub initialised-IsSound :
    (buffer : ℕ → ℤ) (producers consumers : ℕ) → IsSound (initialised buffer producers consumers)
initialised-IsSound buffer producers consumers = (
  [],
  record {
    order = refl;
    ring = tt;
    insert_at = refl;
    remove_at = refl;
    places = refl;
    items = refl;
  },
)

-- In every order of the steps of any number of threads: the items that have been removed are the
-- first that were inserted, in the same order, the others are at most five, and they stand in their
-- order in the buffer from the place on that is removed next. No item is lost, overwritten or
-- removed twice.
pub Reach-Fifo :
    (buffer : ℕ → ℤ) (producers consumers : ℕ) (s : BoundedBuffer)
    → Reach (initialised buffer producers consumers) s
    → (queue : List ℤ) × (s.inserted ≡ s.removed ++ queue)
      × (length queue ≤ buffer_size)
      × Ring s.buffer (length s.removed) queue
      × (s.remove_pointer ≡ length s.removed % buffer_size)
Reach-Fifo buffer producers consumers s r =
    let (queue, h) = Reach-IsSound r (initialised-IsSound buffer producers consumers) in
    let places = h.places in (queue, h.order, omega arith, h.ring, h.remove_at)
