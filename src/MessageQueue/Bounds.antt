-- ===== src/MessageQueue/Bounds.antt =====
-- The bounds of the stack of week5/workshop5/threads/msgq.c.
use cab403work.Base.{ℕ, ◌<◌, ◌≤◌, ◌≡◌, refl, if_both, ltb, ltb→lt, arith}
use cab403work.MessageQueue.{
  Producer, sends, produces, unblocked, counts, shuts, told_to_stop, overflowed, buffer_size,
  Consumer, consumes, receives, takes, opens, stopped, Queue, producer_at, consumer_at,
  producer_function, consumer_function, Step, producer_steps, consumer_steps, told, Reach, here,
  later, messages,
}

-- The stack holds at most five messages, and a consumer that is about to read finds one.
abbrev InBounds : Queue → Type 0
InBounds q = (q.position ≤ buffer_size) × (q.consumer ≡ takes → 0 < q.position)

producer-InBounds :
    (p : Producer) (time : ℕ) (q : Queue) → InBounds q → InBounds (producer_at p time q)
producer-InBounds produces time q h = h
producer-InBounds (sends m) time q h = h
producer-InBounds (unblocked m) time q (top, some') =
    if_both InBounds (ltb q.position buffer_size)
      (λ room. (ltb→lt q.position buffer_size room, λ e. omega arith)) (λ _. (top, some'))
producer-InBounds counts time q h = h
producer-InBounds shuts time q h = h
producer-InBounds told_to_stop time q h = h
producer-InBounds overflowed time q h = h

consumer-InBounds :
    (c : Consumer) (q : Queue) → c ≡ q.consumer → InBounds q → InBounds (consumer_at c q)
consumer-InBounds consumes q e (top, some') = ground arith
consumer-InBounds receives q e (top, some') = ground arith
consumer-InBounds takes q e (top, some') = (omega (arith, top), λ f. cc)
consumer-InBounds (opens m) q e (top, some') = (top, λ f. cc)
consumer-InBounds stopped q e h = h

Step-InBounds : {q q' : Queue} → Step q q' → InBounds q → InBounds q'
unfolding producer_function consumer_function
Step-InBounds {q} (producer_steps time) h = producer-InBounds q.producer time q h
Step-InBounds {q} consumer_steps h = consumer-InBounds q.consumer q refl h
Step-InBounds told h = h

-- In every order of the steps of the two threads and of `main`, from the record of `main`: the
-- position is at most five, and a consumer that is about to read finds it above zero, so that no
-- read is outside the array.
Reach-InBounds : (buffer : ℕ → ℕ) {q : Queue} → Reach (messages buffer) q → InBounds q
Reach-InBounds buffer here = (omega arith, λ e. cc)
Reach-InBounds buffer (later r s) = Step-InBounds s (Reach-InBounds buffer r)
