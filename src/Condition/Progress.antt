-- ===== src/Condition/Progress.antt =====
-- No wake-up is lost in week6/workshop6/condition.c.
use cab403work.Base.{ℕ, zero, suc, ◌+◌, ◌<◌, ◌≡◌, refl, ◌⊎◌, Bool-cases, inl, inr, false, arith}
use cab403work.Condition.{
  Threads, Ring, Entry, fresh, awake, standing, is_full, is_empty, producer, consumer, Step,
  produces, consumes, Reach, all_started,
}
use cab403work.Condition.Consistent.{ring_in_order}
use cab403work.Condition.Waiting.{Reach-IsLive}

-- A thread that can take the mutex, or all of its kind wait.
ready :
    (t : Threads)
    → ((from : Entry) × (n : ℕ) × (standing from t ≡ suc n)) ⊎ ((t.outside ≡ 0) × (t.woken ≡ 0))
ready t = go t.outside t.woken refl refl
  where
    go :
        (a b : ℕ)
        → t.outside ≡ a
        → t.woken ≡ b
        → ((from : Entry) × (n : ℕ) × (standing from t ≡ suc n)) ⊎ ((t.outside ≡ 0) × (t.woken ≡ 0))
    go (suc a) b e e' = inl (fresh, a, e)
    go zero (suc b) e e' = inl (awake, b, e')
    go zero zero e e' = inr (e, e')

-- The producer gets through where there is room, and the consumer where there is something.
Advances : Ring → Type 0
Advances s = (s' : Ring) × Step s s' × (s'.produced + s'.consumed ≡ suc (s.produced + s.consumed))

produces_one :
    (s : Ring) (from : Entry) (n : ℕ)
    → standing from s.producers ≡ suc n
    → is_full s ≡ false
    → Advances s
unfolding producer Advances
produces_one s from n e room = (producer from n s, produces from n e, rw room (omega arith))

consumes_one :
    (s : Ring) (from : Entry) (n : ℕ)
    → standing from s.consumers ≡ suc n
    → is_empty s ≡ false
    → Advances s
unfolding consumer Advances
consumes_one s from n e some' = (consumer from n s, consumes from n e, rw some' (omega arith))

-- With at least one producer and one consumer, from every state that the threads can come to, some
-- thread can take a step in which it fills or empties a place: the program never stops with all
-- threads in a wait.
pub someone_goes_on :
    {p c : ℕ} {s : Ring}
    → 0 < p
    → 0 < c
    → Reach (all_started p c) s
    → (s' : Ring) × Step s s' × (s'.produced + s'.consumed ≡ suc (s.produced + s.consumed))
unfolding Advances
someone_goes_on {p} {c} {s} some_producer some_consumer r =
    let h = ring_in_order r in
    let l = Reach-IsLive p c r in
    elim (Bool-cases (is_full s)) [
      | inl full ↦ elim (ready s.consumers) [
        | inl (from, n, e) ↦ consumes_one s from n e (ground (arith, h.in_bound, h.out_bound))
        | inr (o, w) ↦
            let low = l.consumers (omega (arith, l.all_consumers, o, w, some_consumer)) in
            absurd (ground (arith, h.in_bound, h.out_bound, low, w))
      ]
      | inr room ↦ elim (ready s.producers) [
        | inl (from, n, e) ↦ produces_one s from n e room
        | inr (o, w) ↦
            let low = l.producers (omega (arith, l.all_producers, o, w, some_producer)) in
            absurd (ground (arith, h.in_bound, h.out_bound, low, w))
      ]
    ]
