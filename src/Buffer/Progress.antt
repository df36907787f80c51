-- ===== src/Buffer/Progress.antt =====
-- The threads of week6/workshop6/buffer.c do not come to a standstill.
use cab403work.Base.{ℕ, zero, suc, ◌+◌, ◌<◌, ◌≡◌, ◌⊎◌, inl, inr, refl, ◌∙◌, arith}
use cab403work.Base.Int.{ℤ, pos}
use cab403work.Buffer.{
  Threads, BoundedBuffer, Step, producer_waits, producer_inserts, producer_posts, consumer_waits,
  consumer_removes, consumer_posts, Reach, here, then, initialised,
}
use cab403work.Buffer.Fifo.{Reach-IsSound, initialised-IsSound}

-- The threads of a kind.
abbrev total : Threads → ℕ
total t = t.before + t.inside + t.behind

abbrev SameThreads : BoundedBuffer → BoundedBuffer → Type 0
SameThreads s s' =
    (total s'.producers ≡ total s.producers) × (total s'.consumers ≡ total s.consumers)

Step-SameThreads : {s s' : BoundedBuffer} → Step s s' → SameThreads s s'
Step-SameThreads (producer_waits e n can some_one) = (omega arith, refl)
Step-SameThreads (producer_inserts item n some_one) = (omega arith, refl)
Step-SameThreads (producer_posts n some_one) = (omega arith, refl)
Step-SameThreads (consumer_waits f n can some_one) = (refl, omega arith)
Step-SameThreads (consumer_removes n some_one) = (refl, omega arith)
Step-SameThreads (consumer_posts n some_one) = (refl, omega arith)

Reach-SameThreads : {s s' : BoundedBuffer} → Reach s s' → SameThreads s s'
Reach-SameThreads here = (refl, refl)
Reach-SameThreads (then r step) =
    let (p, c) = Reach-SameThreads r in let (p', c') = Step-SameThreads step in (p' ∙ p, c' ∙ c)

zero_or_suc : (n : ℕ) → (n ≡ 0) ⊎ ((m : ℕ) × (n ≡ suc m))
zero_or_suc zero = inl refl
zero_or_suc (suc m) = inr (m, refl)

-- Where a thread is in its critical section or behind it, it can go on.
thread_goes_on :
    (s : BoundedBuffer)
    → ((s.producers.inside ≡ 0)
        × (s.producers.behind ≡ 0)
        × (s.consumers.inside ≡ 0)
        × (s.consumers.behind ≡ 0))
      ⊎ ((s' : BoundedBuffer) × Step s s')
thread_goes_on s = elim (zero_or_suc s.producers.inside) [
  | inr (n, e) ↦ inr (_, producer_inserts (pos 0) n e)
  | inl a ↦ elim (zero_or_suc s.producers.behind) [
    | inr (n, e) ↦ inr (_, producer_posts n e)
    | inl b ↦ elim (zero_or_suc s.consumers.inside) [
      | inr (n, e) ↦ inr (_, consumer_removes n e)
      | inl c ↦ elim (zero_or_suc s.consumers.behind) [
        | inr (n, e) ↦ inr (_, consumer_posts n e)
        | inl d ↦ inl (a, b, c, d)
      ]
    ]
  ]
]

-- The threads never come to a standstill: with at least one thread of each kind some step is
-- possible in every state that they reach.
pub Reach_goes_on :
    (buffer : ℕ → ℤ) (producers consumers : ℕ) (s : BoundedBuffer)
    → 0 < producers
    → 0 < consumers
    → Reach (initialised buffer producers consumers) s
    → (s' : BoundedBuffer) × Step s s'
Reach_goes_on buffer producers consumers s p c r =
    let (queue, h) = Reach-IsSound r (initialised-IsSound buffer producers consumers) in
    let places = h.places in
    let items = h.items in
    let (all_producers, all_consumers) = Reach-SameThreads r in
    elim (thread_goes_on s) [
      | inr next ↦ next
      | inl (a, b, c', d) ↦ elim (zero_or_suc s.empty) [
        | inr (e, can) ↦ elim (zero_or_suc s.producers.before) [
          | inr (n, some_one) ↦ (_, producer_waits e n can some_one)
          | inl none_there ↦ absurd (omega arith)
        ]
        | inl no_place ↦ elim (zero_or_suc s.full) [
          | inr (f, can) ↦ elim (zero_or_suc s.consumers.before) [
            | inr (n, some_one) ↦ (_, consumer_waits f n can some_one)
            | inl none_there ↦ absurd (omega arith)
          ]
          | inl no_item ↦ absurd (omega arith)
        ]
      ]
    ]
