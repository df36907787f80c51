-- ===== src/Condition/Consistent.antt =====
-- The places of the ring of week6/workshop6/condition.c, in every order of its threads.
use cab403work.Base.{
  ℕ, ◌+◌, ◌-◌, ◌%◌, ◌≤◌, ◌<◌, ◌≡◌, refl, false, ltb, if◌then◌else◌, if_both, arith,
}
use cab403work.Condition.{
  Ring, Entry, store, is_full, is_empty, producer, consumer, Step, produces, consumes,
  producer_wakes, consumer_wakes, Reach, here, later, all_started,
}

-- How many places are in use.
abbrev pub used : Ring → ℕ
used s = (s.in_place + 5 - s.out_place) % 5

-- A place holds 1 where it is one of the `used` from `out_place` on, and 0 elsewhere; the ring has
-- as many places in use as have been filled and not yet emptied.
pub record IsConsistent (s : Ring) : Type 0 where
  pub in_bound : s.in_place < 5
  pub out_bound : s.out_place < 5
  pub balance : s.produced ≡ s.consumed + used s
  pub places :
      (j : ℕ) → j < 5 → s.buffer j ≡ (if ltb ((j + 5 - s.out_place) % 5) (used s) then 1 else 0)

fill :
    (s : Ring)
    → IsConsistent s
    → is_full s ≡ false
    → (j : ℕ) → j < 5
    → store s.buffer s.in_place 1 j ≡ (
        if ltb ((j + 5 - s.out_place) % 5) (((s.in_place + 1) % 5 + 5 - s.out_place) % 5)
        then 1
        else 0)
fill s h f j b = ground (arith, h.in_bound, h.out_bound, h.places j b)

empty :
    (s : Ring)
    → IsConsistent s
    → is_empty s ≡ false
    → (j : ℕ) → j < 5
    → store s.buffer s.out_place 0 j ≡ (
        if ltb ((j + 5 - (s.out_place + 1) % 5) % 5) ((s.in_place + 5 - (s.out_place + 1) % 5) % 5)
        then 1
        else 0)
empty s h f j b = ground (arith, h.in_bound, h.out_bound, h.places j b)

producer-IsConsistent :
    (from : Entry) (n : ℕ) (s : Ring) → IsConsistent s → IsConsistent (producer from n s)
unfolding producer
producer-IsConsistent from n s h =
    if_both IsConsistent (is_full s)
      (λ full. record {
        in_bound = h.in_bound;
        out_bound = h.out_bound;
        balance = h.balance;
        places = h.places;
      })
      (λ room. record {
        in_bound = omega arith;
        out_bound = h.out_bound;
        balance = ground (arith, h.in_bound, h.out_bound, h.balance);
        places = fill s h room;
      })

consumer-IsConsistent :
    (from : Entry) (n : ℕ) (s : Ring) → IsConsistent s → IsConsistent (consumer from n s)
unfolding consumer
consumer-IsConsistent from n s h =
    if_both IsConsistent (is_empty s)
      (λ none'. record {
        in_bound = h.in_bound;
        out_bound = h.out_bound;
        balance = h.balance;
        places = h.places;
      })
      (λ some'. record {
        in_bound = h.in_bound;
        out_bound = omega arith;
        balance = ground (arith, h.in_bound, h.out_bound, h.balance);
        places = empty s h some';
      })

Step-IsConsistent : {s s' : Ring} → Step s s' → IsConsistent s → IsConsistent s'
Step-IsConsistent {s} (produces from n e) h = producer-IsConsistent from n s h
Step-IsConsistent {s} (consumes from n e) h = consumer-IsConsistent from n s h
Step-IsConsistent {s} producer_wakes h = record {
  in_bound = h.in_bound;
  out_bound = h.out_bound;
  balance = h.balance;
  places = h.places;
}
Step-IsConsistent {s} consumer_wakes h = record {
  in_bound = h.in_bound;
  out_bound = h.out_bound;
  balance = h.balance;
  places = h.places;
}

pub ring_in_order :
    {producer_threads consumer_threads : ℕ} {s : Ring}
    → Reach (all_started producer_threads consumer_threads) s
    → IsConsistent s
ring_in_order here = record {
  in_bound = omega arith;
  out_bound = omega arith;
  balance = refl;
  places = λ j b. ground arith;
}
ring_in_order (later r s) = Step-IsConsistent s (ring_in_order r)

-- In every order of the steps of any number of threads: a place of the ring holds 1 where it is one
-- of those in use, from `out_place` up to `in_place`, and 0 elsewhere; these are at most four, and
-- as many as have been produced and not consumed; a producer fills only a place that is empty, and
-- a consumer that does not wait empties one that is full.
pub Reach-IsConsistent :
    {producer_threads consumer_threads : ℕ} {s : Ring}
    → Reach (all_started producer_threads consumer_threads) s
    → IsConsistent s
      × (used s ≤ 4)
      × (s.buffer s.in_place ≡ 0)
      × (is_empty s ≡ false → s.buffer s.out_place ≡ 1)
Reach-IsConsistent {s} r =
    let h = ring_in_order r in
    (
      h,
      omega arith,
      ground (arith, h.in_bound, h.out_bound, h.places s.in_place h.in_bound),
      λ some'. ground (arith, h.in_bound, h.out_bound, h.places s.out_place h.out_bound),
    )
