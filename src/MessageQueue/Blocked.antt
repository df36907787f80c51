-- ===== src/MessageQueue/Blocked.antt =====
-- How the two threads of week5/workshop5/threads/msgq.c come to block each other.
use cab403work.Base.{ℕ, zero, suc, ◌≡◌, refl, sym, subst, true, false, arith}
use cab403work.MessageQueue.{
  Producer, sends, produces, shuts, Consumer, consumes, receives, takes, Queue, producer_at,
  consumer_at, producer_function, consumer_function, Step, producer_steps, consumer_steps, told,
  Reach, here, later,
}

-- The producer waits for room, and the consumer for a message.
pub record IsBlocked (q : Queue) : Type 0 where
  pub message : ℕ
  pub nothing : q.position ≡ 0
  pub no_room : q.is_room ≡ false
  pub sending : q.producer ≡ sends message
  pub receiving : q.consumer ≡ receives

Step-IsBlocked : {q q' : Queue} → Step q q' → IsBlocked q → IsBlocked q'
unfolding producer_function consumer_function
Step-IsBlocked {q} (producer_steps time) b =
    subst (λ p. IsBlocked (producer_at p time q)) (sym b.sending)
      (record {
        message = b.message;
        nothing = b.nothing;
        no_room = b.no_room;
        sending = rw b.no_room;
        receiving = b.receiving;
      })
Step-IsBlocked {q} consumer_steps b =
    subst (λ c. IsBlocked (consumer_at c q)) (sym b.receiving)
      (record {
        message = b.message;
        nothing = b.nothing;
        no_room = b.no_room;
        sending = b.sending;
        receiving = rw b.nothing;
      })
Step-IsBlocked {q} told b = record {
  message = b.message;
  nothing = b.nothing;
  no_room = b.no_room;
  sending = b.sending;
  receiving = b.receiving;
}

-- Two threads that block each other do so for ever, also when they are told to stop.
Reach-IsBlocked : {q q' : Queue} → Reach q q' → IsBlocked q → IsBlocked q'
Reach-IsBlocked here b = b
Reach-IsBlocked (later r s) b = Step-IsBlocked s (Reach-IsBlocked r b)

-- The producer has found the buffer full and is about to say so, and the consumer is at the head of
-- its loop, with `n` messages to take.
pub record Closing (n : ℕ) (q : Queue) : Type 0 where
  pub running : q.keep_running ≡ true
  pub left_over : q.position ≡ n
  pub shutting : q.producer ≡ shuts
  pub consuming : q.consumer ≡ consumes

pub after : {q q' q'' : Queue} → Reach q q' → Reach q' q'' → Reach q q''
after r here = r
after r (later s t) = later (after r s) t

pub producer_goes :
    (time : ℕ) (q : Queue) (p : Producer) → q.producer ≡ p → Step q (producer_at p time q)
unfolding producer_function
producer_goes time q p e = subst (λ x. Step q (producer_at x time q)) e (producer_steps time)

consumer_goes : (q : Queue) (c : Consumer) → q.consumer ≡ c → Step q (consumer_at c q)
unfolding consumer_function
consumer_goes q c e = subst (λ x. Step q (consumer_at x q)) e consumer_steps

-- A whole round of the consumer.
take_one : (n : ℕ) (q : Queue) → Closing (suc n) q → (q' : Queue) × Reach q q' × Closing n q'
take_one n q h =
    let q₁ = consumer_at consumes q in
    let q₂ = consumer_at receives q₁ in
    let q₃ = consumer_at takes q₂ in
    let waits : q₁.consumer ≡ receives = rw h.running in
    let found : q₂.consumer ≡ takes = ground (arith, h.left_over) in
    (
      consumer_at q₃.consumer q₃,
      later
          (later
            (later (later here (consumer_goes q consumes h.consuming))
              (consumer_goes q₁ receives waits))
            (consumer_goes q₂ takes found))
          (consumer_goes q₃ q₃.consumer refl),
      record {
        running = h.running;
        left_over = omega (arith, h.left_over);
        shutting = h.shutting;
        consuming = refl;
      },
    )

-- With nothing left the consumer waits, and then the producer closes the buffer and waits too.
close_up : (q : Queue) → Closing 0 q → (q' : Queue) × Reach q q' × IsBlocked q'
close_up q h =
    let q₁ = consumer_at consumes q in
    let q₂ = producer_at shuts 0 q₁ in
    let waits : q₁.consumer ≡ receives = rw h.running in
    (
      producer_at produces 0 q₂,
      later
          (later (later here (consumer_goes q consumes h.consuming))
            (producer_goes 0 q₁ shuts h.shutting))
          (producer_goes 0 q₂ produces refl),
      record {
        message = 0;
        nothing = h.left_over;
        no_room = refl;
        sending = rw h.running;
        receiving = waits;
      },
    )

-- Where the producer has found the buffer full and is about to say that there is no room, and the
-- consumer is at the head of its loop, the threads can come to block each other: the producer waits
-- for room and the consumer for a message. They do so for ever then, whatever steps follow, also
-- when they are told to stop.
pub Closing-IsBlocked :
    (n : ℕ) (q : Queue)
    → Closing n q
    → (q' : Queue) × Reach q q' × IsBlocked q' × ((q'' : Queue) → Reach q' q'' → IsBlocked q'')
Closing-IsBlocked zero q h =
    let (q', r, b) = close_up q h in (q', r, b, λ q'' r'. Reach-IsBlocked r' b)
Closing-IsBlocked (suc n) q h =
    let (q₁, r₁, h₁) = take_one n q h in
    let (q', r, b, always) = Closing-IsBlocked n q₁ h₁ in (q', after r₁ r, b, always)
