-- ===== src/MessageQueue/Filled.antt =====
-- How the producer of week5/workshop5/threads/msgq.c comes to find the buffer full.
use cab403work.Base.{ℕ, zero, suc, ◌<◌, ◌≡◌, refl, true, ltb, arith}
use cab403work.MessageQueue.{
  produces, sends, unblocked, counts, consumes, Queue, producer_at, Reach, here, later, messages,
}
use cab403work.MessageQueue.Blocked.{producer_goes, after, Closing}

-- The producer is at the head of its loop, with `n` messages in the buffer and room for more.
record Filling (n : ℕ) (q : Queue) : Type 0 where
  running : q.keep_running ≡ true
  filled : q.position ≡ n
  room : q.is_room ≡ true
  producing : q.producer ≡ produces
  consuming : q.consumer ≡ consumes

-- A round of the producer up to its test for a full buffer.
record Counting (n : ℕ) (q : Queue) : Type 0 where
  running : q.keep_running ≡ true
  filled : q.position ≡ n
  room : q.is_room ≡ true
  counting : q.producer ≡ counts
  consuming : q.consumer ≡ consumes

fill_one :
    (n : ℕ) (q : Queue) → n < 5 → Filling n q → (q' : Queue) × Reach q q' × Counting (suc n) q'
fill_one n q below h =
    let q₁ = producer_at produces 0 q in
    let q₂ = producer_at (sends 0) 0 q₁ in
    let q₃ = producer_at (unblocked 0) 0 q₂ in
    let sending : q₁.producer ≡ sends 0 = rw h.running in
    let passes : q₂.producer ≡ unblocked 0 = rw h.room in
    (
      q₃,
      later
          (later (later here (producer_goes 0 q produces h.producing))
            (producer_goes 0 q₁ (sends 0) sending))
          (producer_goes 0 q₂ (unblocked 0) passes),
      written n q₂ below h.filled h.running h.room h.consuming,
    )
  where
    written :
        (n : ℕ) (q : Queue)
        → n < 5
        → q.position ≡ n
        → q.keep_running ≡ true
        → q.is_room ≡ true
        → q.consumer ≡ consumes
        → Counting (suc n) (producer_at (unblocked 0) 0 q)
    written n q below e running room consuming =
        let low : ltb q.position 5 ≡ true = ground arith in
        rw low (record {
          running = running;
          filled = omega (arith, e);
          room = room;
          counting = refl;
          consuming = consuming;
        })

-- The buffer is not full yet, and the producer goes on; or it is full.
goes_around : (n : ℕ) (q : Queue) → n < 5 → Counting n q → (q' : Queue) × Reach q q' × Filling n q'
goes_around n q below h = (
  producer_at counts 0 q,
  later here (producer_goes 0 q counts h.counting),
  record {
    running = h.running;
    filled = h.filled;
    room = h.room;
    producing = ground (arith, h.filled);
    consuming = h.consuming;
  },
)

closes : (q : Queue) → Counting 5 q → (q' : Queue) × Reach q q' × Closing 5 q'
closes q h = (
  producer_at counts 0 q,
  later here (producer_goes 0 q counts h.counting),
  record {
    running = h.running;
    left_over = h.filled;
    shutting = rw h.filled;
    consuming = h.consuming;
  },
)

-- The producer fills the buffer up to `n` messages.
fill_up :
    (n : ℕ) (buffer : ℕ → ℕ) → n < 5 → (q : Queue) × Reach (messages buffer) q × Counting (suc n) q
fill_up zero buffer h =
    fill_one 0 (messages buffer) h
      (record { running = refl; filled = refl; room = refl; producing = refl; consuming = refl })
fill_up (suc n) buffer h =
    let (q₁, r₁, c₁) = fill_up n buffer (omega arith) in
    let (q₂, r₂, c₂) = goes_around (suc n) q₁ h c₁ in
    let (q₃, r₃, c₃) = fill_one (suc n) q₂ h c₂ in (q₃, after (after r₁ r₂) r₃, c₃)

-- From the start the producer comes to find the buffer full, while the consumer sleeps.
pub start_closes : (buffer : ℕ → ℕ) → (q : Queue) × Reach (messages buffer) q × Closing 5 q
start_closes buffer =
    let (q₁, r₁, c₁) = fill_up 4 buffer (omega arith) in
    let (q₂, r₂, c₂) = closes q₁ c₁ in (q₂, after r₁ r₂, c₂)
