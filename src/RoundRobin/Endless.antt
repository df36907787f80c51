-- ===== src/RoundRobin/Endless.antt =====
-- `printLinkedList` of exam/week9/roundRobinScheduling_Skeleton.c on the ready queue, whose nodes the
-- job queue has linked into a circle.
use cab403work.Base.{
  ℕ, zero, suc, ◌≡◌, ◌⊎◌, inl, inr, refl, sym, ap, ◌∙◌, subst, Bool, true, false, List, [], ◌∷◌,
  Option, none, some, ◌==◌, ==_iff, if◌then◌else◌, arith, Bool-cases, Option-cases,
}
use mathlib.Core.Option.{some-injective}
use cab403work.Base.Int.{ℤ, pos, ltb_ℤ, less}
use cab403work.Links.{Links, link, Seg, Distinct, behind_prev, head_or, last_of}
use cab403work.RoundRobin.{
  Scheduler, quantum, is_tail, insert_node_job_queue, insert_node_to_ready_queue,
  remove_job_queue_head_node, time_slice, schedule, print_from, print_linked_list,
}
use cab403work.RoundRobin.Jobs.{
  Jobs, again, rest, reinserted, time_slice-rest, remove_found, time_slice-removed, sliced,
}
use cab403work.RoundRobin.Schedule.{Among, schedule-zero, schedule_on, schedule_stop}
use cab403work.RoundRobin.Served.{prepared, prepared-Prepared}

-- Each of the nodes leads to one of them.
abbrev Closed : Links → List ℕ → Type 0
Closed next all = (x : ℕ) → Among x all → (y : ℕ) × (next x ≡ some y) × Among y all

record Circling (s : Scheduler) (all : List ℕ) : Type 0 where
  closed : Closed s.next all
  head : (x : ℕ) → s.job_head ≡ some x → Among x all
  ready : (h : ℕ) × (s.ready_head ≡ some h) × Among h all
  tail : (t : ℕ) × (s.ready_tail ≡ some t)

Closed-link :
    (next : Links) (all : List ℕ) (t a : ℕ)
    → Among a all
    → Closed next all
    → Closed (link next t (some a)) all
Closed-link next all t a m c x n = elim (Bool-cases (x == t)) [
  | inl same ↦ (a, rw same refl, m)
  | inr other ↦ rw other (c x n)
]

Closed-behind_prev :
    (next : Links) (all : List ℕ) (prev : Option ℕ) (a : ℕ)
    → Among a all
    → Closed next all
    → Closed (behind_prev prev a next) all
Closed-behind_prev next all none a m c = c
Closed-behind_prev next all (some t) a m c = Closed-link next all t a m c

module _ (all : List ℕ) (a : ℕ) (m : Among a all) where
  remove-Circling :
      (s : Scheduler)
      → s.job_head ≡ some a
      → Circling s all
      → Circling (remove_job_queue_head_node s) all
  remove-Circling s e c =
      subst (λ r. Circling r all) (sym (remove_found s a e))
        (elim (Bool-cases (is_tail a s.job_tail)) [
          | inl only ↦ rw only (record {
            closed = c.closed;
            head = λ x h. absurd cc;
            ready = c.ready;
            tail = c.tail;
          })
          | inr more ↦
              let (y, to, y_among) = c.closed a m in
              rw more (record {
                closed = c.closed;
                head = λ x h. subst (λ z. Among z all) (some-injective y x (sym to ∙ h)) y_among;
                ready = c.ready;
                tail = c.tail;
              })
        ])

  head_or-Among :
      (tail head : Option ℕ)
      → ((x : ℕ) → head ≡ some x → Among x all)
      → (x : ℕ) → head_or tail a head ≡ some x
      → Among x all
  head_or-Among none head h x e = subst (λ z. Among z all) (some-injective a x e) m
  head_or-Among (some t) head h x e = h x e

  reinserted-Circling : (s : Scheduler) → Circling s all → Circling (reinserted s a s) all
  unfolding insert_node_job_queue insert_node_to_ready_queue
  reinserted-Circling s c = record {
    closed =
        Closed-behind_prev (behind_prev s.job_tail a s.next) all s.ready_tail a m
          (Closed-behind_prev s.next all s.job_tail a m c.closed);
    head = head_or-Among s.job_tail s.job_head c.head;
    ready = rw (c.tail.1) c.ready;
    tail = (a, refl);
  }

  abbrev again_here : Scheduler → Bool
  again_here r = ltb_ℤ (pos 0) (r.burst a)

  either-Circling :
      (r : Scheduler) (more : Bool)
      → Circling r all
      → Circling (if more then reinserted r a r else r) all
  either-Circling r true c = reinserted-Circling r c
  either-Circling r false c = c

  time_slice-Circling :
      (s : Scheduler) → s.job_head ≡ some a → Circling s all → Circling (time_slice a s) all
  time_slice-Circling s e c =
      let r = remove-Circling s e c in
      let ran : Circling (sliced s a (remove_job_queue_head_node s)) all = record {
        closed = r.closed;
        head = r.head;
        ready = r.ready;
        tail = r.tail;
      } in
      rw (time_slice-removed s a) (
        either-Circling (sliced s a (remove_job_queue_head_node s))
          (again_here (sliced s a (remove_job_queue_head_node s))) ran)

schedule-Circling :
    (all : List ℕ) (n : ℕ) (s : Scheduler) → Circling s all → Circling (schedule n s) all
schedule-Circling all zero s c = rw (schedule-zero s) c
schedule-Circling all (suc n) s c = elim (Option-cases s.job_head) [
  | inl e ↦ rw (schedule_stop (suc n) s e) c
  | inr (a, e) ↦
      rw (schedule_on n a s e)
        (schedule-Circling all n (time_slice a s) (time_slice-Circling all a (c.head a e) s e c))
]

print_from-none :
    (all : List ℕ) (next : Links) (m h : ℕ)
    → Closed next all
    → Among h all
    → print_from m next h ≡ none
unfolding print_from
print_from-none all next zero h c n = refl
print_from-none all next (suc m) h c n =
    let (y, to, k) = c h n in rw (print_from, to, print_from-none all next m y c k) refl

print-none :
    (all : List ℕ) (s : Scheduler) (m : ℕ)
    → Circling s all
    → print_linked_list m s.next s.ready_head ≡ none
unfolding print_linked_list
print-none all s m c = let (h, e, k) = c.ready in rw e (print_from-none all s.next m h c.closed k)

-- Each node of a path but the last leads to a node of it.
path_next :
    (next : Links) (p : Option ℕ) (xs : List ℕ) (end : Option ℕ)
    → Seg next p xs end
    → (x : ℕ) → Among x xs
    → (last_of none xs ≡ some x) ⊎ ((y : ℕ) × (next x ≡ some y) × Among y xs)
path_next next p [] end s x m = absurd m
path_next next p (a ∷ []) end s x (inl e) = inl (ap some (sym e))
path_next next p (a ∷ []) end s x (inr m) = absurd m
path_next next p (a ∷ b ∷ xs) end (e, (to, s)) x (inl same) =
    inr (b, ap next same ∙ to, inr (inl refl))
path_next next p (a ∷ b ∷ xs) end (e, s) x (inr m) =
    elim (path_next next (next a) (b ∷ xs) end s x m) [
      | inl last ↦ inl last
      | inr (y, to, k) ↦ inr (y, to, inr k)
    ]

last_some : (b : ℕ) (xs : List ℕ) → (l : ℕ) × (last_of (some b) xs ≡ some l)
last_some b [] = (b, refl)
last_some b (c ∷ xs) = last_some c xs

-- The first round closes the circle, where the first process goes on and another one waits.
module _ (s : Scheduler) (a b : ℕ) (xs : List ℕ) (j : Jobs s (a ∷ b ∷ xs)) where
  circle_closed : (l : ℕ) → s.job_tail ≡ some l → Closed (link s.next l (some a)) (a ∷ b ∷ xs)
  circle_closed l e x m = elim (Bool-cases (x == l)) [
    | inl same ↦ (a, rw same refl, inl refl)
    | inr other ↦ elim (path_next s.next s.job_head (a ∷ b ∷ xs) j.path.0 j.path.1 x m) [
      | inl last ↦
          let at : x ≡ l = some-injective x l (sym last ∙ sym j.tail ∙ e) in
          absurd (ground (arith, ==_iff x l))
      | inr (y, to, k) ↦ rw other (y, to, k)
    ]
  ]

  first-Circling :
      s.ready_head ≡ none
      → s.ready_tail ≡ none
      → again s a ≡ true
      → Circling (time_slice a s) (a ∷ b ∷ xs)
  unfolding insert_node_job_queue insert_node_to_ready_queue
  first-Circling no_head no_tail more =
      let (l, last) = last_some b xs in
      let at : s.job_tail ≡ some l = j.tail ∙ last in
      let e : time_slice a s ≡ reinserted s a (rest s a (b ∷ xs)) =
        time_slice-rest s a (b ∷ xs) j ∙ simp more in
      rw e (record {
        closed = rw (no_tail, at) (circle_closed l at);
        head = rw at (λ x h. inr (inl (some-injective x b (sym h ∙ j.path.1.1.0))));
        ready = (a, rw no_tail refl, inl refl);
        tail = (a, refl);
      })

-- `printLinkedList` of the ready queue never comes to an end: where `main` makes at least two
-- processes and the first has more than a quantum to do, behind any number of rounds from the first
-- on, no number of steps reaches a node whose `nextNode` is NULL.
pub schedule-print_linked_list :
    (a b : ℕ) (xs : List ℕ) (next : Links) (burst : ℕ → ℤ) (n m : ℕ)
    → Distinct (a ∷ b ∷ xs)
    → ltb_ℤ (pos 0) (less (burst a) quantum) ≡ true
    → let s = schedule (suc n) (prepared (a ∷ b ∷ xs) next burst) in
      print_linked_list m s.next s.ready_head ≡ none
schedule-print_linked_list a b xs next burst n m d more =
    let s = prepared (a ∷ b ∷ xs) next burst in
    let p = prepared-Prepared (a ∷ b ∷ xs) next burst d in
    let goes_on : again s a ≡ true = ap (λ f. ltb_ℤ (pos 0) (less (f a) quantum)) p.bursts ∙ more in
    let circle = first-Circling s a b xs p.jobs p.head p.tail goes_on in
    rw (schedule_on n a s p.jobs.path.1.0) (
      print-none (a ∷ b ∷ xs) (schedule n (time_slice a s)) m
        (schedule-Circling (a ∷ b ∷ xs) n (time_slice a s) circle))
