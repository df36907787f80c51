-- ===== src/Condition/Waiting.antt =====
-- The threads that wait in week6/workshop6/condition.c, and those that have been woken.
use cab403work.Base.{ℕ, zero, suc, ◌+◌, ◌-◌, ◌≤◌, ◌<◌, ◌≡◌, refl, if_both, arith}
use cab403work.Condition.{
  Threads, Ring, Entry, fresh, awake, standing, wake_one, signal, is_full, is_empty, producer,
  consumer, Step, produces, consumes, producer_wakes, consumer_wakes, Reach, here, later,
  all_started,
}
use cab403work.Condition.Consistent.{used, IsConsistent, ring_in_order}

abbrev pub total : Threads → ℕ
total t = t.outside + t.waiting + t.woken

-- While threads of a kind wait, as many of it have been woken as could go on.
pub record IsLive (producer_threads consumer_threads : ℕ) (s : Ring) : Type 0 where
  pub producers : 0 < s.producers.waiting → 4 - used s ≤ s.producers.woken
  pub consumers : 0 < s.consumers.waiting → used s ≤ s.consumers.woken
  pub all_producers : total s.producers ≡ producer_threads
  pub all_consumers : total s.consumers ≡ consumer_threads

-- A signal.
signalled :
    (t : Threads)
    → (total (signal t) ≡ total t)
      × ((signal t).waiting ≤ t.waiting)
      × (t.woken ≤ (signal t).woken)
      × (0 < t.waiting → (signal t).woken ≡ suc t.woken)
signalled t = go t.waiting refl
  where
    go :
        (n : ℕ)
        → t.waiting ≡ n
        → (total (wake_one n t) ≡ total t)
          × ((wake_one n t).waiting ≤ t.waiting)
          × (t.woken ≤ (wake_one n t).woken)
          × (0 < t.waiting → (wake_one n t).woken ≡ suc t.woken)
    go zero e = (refl, omega arith, omega arith, λ h. absurd (omega (arith, e, h)))
    go (suc n) e = (omega arith, omega arith, omega arith, λ h. refl)

module _ (p c : ℕ) where
  producer-IsLive :
      (from : Entry) (n : ℕ) (s : Ring)
      → IsConsistent s
      → standing from s.producers ≡ suc n
      → IsLive p c s
      → IsLive p c (producer from n s)
  unfolding producer
  producer-IsLive fresh n s h e l =
      if_both (IsLive p c) (is_full s)
        (λ full. record {
          producers = λ w. ground (arith, h.in_bound, h.out_bound);
          consumers = l.consumers;
          all_producers = omega (arith, e, l.all_producers);
          all_consumers = l.all_consumers;
        })
        (λ room.
          let sig = signalled s.consumers in
          record {
            producers = λ w. ground (arith, h.in_bound, h.out_bound, l.producers w);
            consumers = λ w. ground (arith, h.in_bound, h.out_bound, sig, l.consumers);
            all_producers = omega (arith, e, l.all_producers);
            all_consumers = omega (arith, l.all_consumers, sig.0);
          })
  producer-IsLive awake n s h e l =
      if_both (IsLive p c) (is_full s)
        (λ full. record {
          producers = λ w. ground (arith, h.in_bound, h.out_bound);
          consumers = l.consumers;
          all_producers = omega (arith, e, l.all_producers);
          all_consumers = l.all_consumers;
        })
        (λ room.
          let sig = signalled s.consumers in
          record {
            producers = λ w. ground (arith, h.in_bound, h.out_bound, l.producers w);
            consumers = λ w. ground (arith, h.in_bound, h.out_bound, sig, l.consumers);
            all_producers = omega (arith, e, l.all_producers);
            all_consumers = omega (arith, l.all_consumers, sig.0);
          })

  consumer-IsLive :
      (from : Entry) (n : ℕ) (s : Ring)
      → IsConsistent s
      → standing from s.consumers ≡ suc n
      → IsLive p c s
      → IsLive p c (consumer from n s)
  unfolding consumer
  consumer-IsLive fresh n s h e l =
      if_both (IsLive p c) (is_empty s)
        (λ none'. record {
          producers = l.producers;
          consumers = λ w. ground (arith, h.in_bound, h.out_bound);
          all_producers = l.all_producers;
          all_consumers = omega (arith, e, l.all_consumers);
        })
        (λ some'.
          let sig = signalled s.producers in
          record {
            producers = λ w. ground (arith, h.in_bound, h.out_bound, sig, l.producers);
            consumers = λ w. ground (arith, h.in_bound, h.out_bound, l.consumers w);
            all_producers = omega (arith, l.all_producers, sig.0);
            all_consumers = omega (arith, e, l.all_consumers);
          })
  consumer-IsLive awake n s h e l =
      if_both (IsLive p c) (is_empty s)
        (λ none'. record {
          producers = l.producers;
          consumers = λ w. ground (arith, h.in_bound, h.out_bound);
          all_producers = l.all_producers;
          all_consumers = omega (arith, e, l.all_consumers);
        })
        (λ some'.
          let sig = signalled s.producers in
          record {
            producers = λ w. ground (arith, h.in_bound, h.out_bound, sig, l.producers);
            consumers = λ w. ground (arith, h.in_bound, h.out_bound, l.consumers w);
            all_producers = omega (arith, l.all_producers, sig.0);
            all_consumers = omega (arith, e, l.all_consumers);
          })

  Step-IsLive : {s s' : Ring} → Step s s' → IsConsistent s → IsLive p c s → IsLive p c s'
  Step-IsLive {s} (produces from n e) h l = producer-IsLive from n s h e l
  Step-IsLive {s} (consumes from n e) h l = consumer-IsLive from n s h e l
  Step-IsLive {s} producer_wakes h l =
      let sig = signalled s.producers in
      record {
        producers = λ w. omega (arith, l.producers (omega (arith, sig.1, w)), sig.2);
        consumers = l.consumers;
        all_producers = omega (arith, l.all_producers, sig.0);
        all_consumers = l.all_consumers;
      }
  Step-IsLive {s} consumer_wakes h l =
      let sig = signalled s.consumers in
      record {
        producers = l.producers;
        consumers = λ w. omega (arith, l.consumers (omega (arith, sig.1, w)), sig.2);
        all_producers = l.all_producers;
        all_consumers = omega (arith, l.all_consumers, sig.0);
      }

  pub Reach-IsLive : {s : Ring} → Reach (all_started p c) s → IsLive p c s
  Reach-IsLive here = record {
    producers = λ w. absurd (omega (arith, w));
    consumers = λ w. absurd (omega (arith, w));
    all_producers = omega arith;
    all_consumers = omega arith;
  }
  Reach-IsLive (later r s) = Step-IsLive s (ring_in_order r) (Reach-IsLive r)
