-- ===== src/RoundRobin/Schedule.antt =====
-- The loop of exam/week9/roundRobinScheduling_Skeleton.c as a first-in first-out queue, and its end.
use cab403work.Base.{
  ℕ, zero, suc, ◌≡◌, ◌≢◌, ◌⊎◌, ◌≤◌, ◌+◌, inl, inr, refl, sym, ap, ◌∙◌, subst, true, false, List, [],
  ◌∷◌, ◌++◌, map, none, some, ◌==◌, ==_iff, if◌then◌else◌, arith, Bool-cases,
}
use mathlib.Core.List.{map-append}
use cab403work.Base.Int.{ℤ, pos, negsuc, pos_part, neg_part, ltb_ℤ, ltb_ℤ→≤, ◌≤ℤ◌, less, less_parts}
use cab403work.Links.{Apart}
use cab403work.RoundRobin.{
  Scheduler, insert_node_job_queue, insert_node_to_ready_queue, run_slice, time_slice, schedule,
  quantum,
}
use cab403work.RoundRobin.Jobs.{
  Jobs, SharedTail, again, rest, reinserted, reinserted-Jobs, rest-Jobs, time_slice-rest,
  slice_self, rest-burst,
}

-- One turn of a queue of processes and what is left of them: the first runs for a quantum, and goes
-- behind the others if it has more to do.
abbrev pub turn : List (ℕ × ℤ) → List (ℕ × ℤ)
turn [] = []
turn ((process, burst) ∷ queue) =
    if ltb_ℤ (pos 0) (less burst quantum)
    then queue ++ (process, less burst quantum) ∷ []
    else queue

abbrev pub turns : ℕ → List (ℕ × ℤ) → List (ℕ × ℤ)
turns zero queue = queue
turns (suc n) queue = turns n (turn queue)

-- The processes with what is left of them.
abbrev pub view : Scheduler → List ℕ → List (ℕ × ℤ)
view s xs = map (λ p. (p, s.burst p)) xs

-- A state of the two queues.
abbrev pub Queues : Scheduler → List ℕ → Type 0
Queues s xs = Jobs s xs × SharedTail s xs

pub slice_other : (a : ℕ) (burst : ℕ → ℤ) (p : ℕ) → p ≢ a → run_slice a burst p ≡ burst p
slice_other a burst p ne = ground (arith, ==_iff p a)

view_others :
    (s : Scheduler) (a : ℕ) (xs : List ℕ)
    → Apart a xs
    → map (λ p. (p, run_slice a s.burst p)) xs ≡ view s xs
view_others s a [] n = refl
view_others s a (x ∷ xs) (ne, n) = rw (slice_other a s.burst x ne, view_others s a xs n) refl

rest-SharedTail :
    (s : Scheduler) (a : ℕ) (xs : List ℕ) → SharedTail s (a ∷ xs) → SharedTail (rest s a xs) xs
rest-SharedTail s a [] h = tt
rest-SharedTail s a (b ∷ xs) h = h

reinserted-SharedTail :
    (s : Scheduler) (a : ℕ) (xs : List ℕ) → SharedTail (reinserted s a (rest s a xs)) (xs ++ a ∷ [])
unfolding insert_node_job_queue insert_node_to_ready_queue
reinserted-SharedTail s a [] = inr refl
reinserted-SharedTail s a (b ∷ xs) = inr refl

view_behind :
    (s : Scheduler) (a : ℕ) (xs : List ℕ)
    → Apart a xs
    → map (λ p. (p, run_slice a s.burst p)) (xs ++ a ∷ [])
      ≡ view s xs ++ (a, less (s.burst a) quantum) ∷ []
view_behind s a xs n =
    rw
      (
        map-append {B = ℕ × ℤ} (λ p. (p, run_slice a s.burst p)) xs (a ∷ []),
        view_others s a xs n,
        slice_self s a,
      )
      refl

pub reinserted-burst :
    (s : Scheduler) (a : ℕ) (xs : List ℕ)
    → (reinserted s a (rest s a xs)).burst ≡ run_slice a s.burst
unfolding insert_node_job_queue insert_node_to_ready_queue
reinserted-burst s a xs = rest-burst s a xs

-- The process waits in the queue, or has nothing left to do.
abbrev pub Among : ℕ → List ℕ → Type 0
Among p [] = ⊥
Among p (x ∷ xs) = (p ≡ x) ⊎ Among p xs

abbrev pub Settled : (ℕ → ℤ) → List ℕ → ℕ → Type 0
Settled burst xs p = Among p xs ⊎ (burst p ≤ℤ pos 0)

Among-append : (p : ℕ) (xs : List ℕ) (a : ℕ) → Among p (a ∷ xs) → Among p (xs ++ a ∷ [])
Among-append p [] a m = m
Among-append p (x ∷ xs) a (inl e) = inr (Among-append p xs a (inl e))
Among-append p (x ∷ xs) a (inr (inl e)) = inl e
Among-append p (x ∷ xs) a (inr (inr m)) = inr (Among-append p xs a (inr m))

Settled-more :
    (s : Scheduler) (a : ℕ) (xs : List ℕ) (p : ℕ)
    → Settled s.burst (a ∷ xs) p
    → Settled (run_slice a s.burst) (xs ++ a ∷ []) p
Settled-more s a xs p (inl m) = inl (Among-append p xs a m)
Settled-more s a xs p (inr h) = elim (Bool-cases (p == a)) [
  | inl same ↦ inl (Among-append p xs a (inl ((==_iff p a).0 same)))
  | inr other ↦ inr (rw other h)
]

Settled-done :
    (s : Scheduler) (a : ℕ) (xs : List ℕ) (p : ℕ)
    → again s a ≡ false
    → Settled s.burst (a ∷ xs) p
    → Settled (run_slice a s.burst) xs p
Settled-done s a xs p done settled = elim (Bool-cases (p == a)) [
  | inl same ↦ inr (rw same (ltb_ℤ→≤ (pos 0) (less (s.burst a) quantum) done))
  | inr other ↦ elim settled [
    | inl (inl e) ↦ absurd (ground (arith, ==_iff p a))
    | inl (inr m) ↦ inl m
    | inr h ↦ inr (rw other h)
  ]
]

-- A round is a turn.
pub time_slice-turn :
    (s : Scheduler) (a : ℕ) (xs : List ℕ)
    → Queues s (a ∷ xs)
    → (ys : List ℕ) × Queues (time_slice a s) ys
      × (view (time_slice a s) ys ≡ turn (view s (a ∷ xs)))
      × ((p : ℕ) → Settled s.burst (a ∷ xs) p → Settled (time_slice a s).burst ys p)
time_slice-turn s a xs (j, h) = elim (Bool-cases (again s a)) [
  | inl more ↦
      let e : time_slice a s ≡ reinserted s a (rest s a xs) =
        time_slice-rest s a xs j ∙ simp more in
      rw (e, more)
        (
          xs ++ a ∷ [],
          (reinserted-Jobs s a xs j h, reinserted-SharedTail s a xs),
          ap (λ f. map (λ p. (p, f p)) (xs ++ a ∷ [])) (reinserted-burst s a xs)
              ∙ view_behind s a xs j.distinct.0,
          (λ p settled.
              subst (λ f. Settled f (xs ++ a ∷ []) p) (sym (reinserted-burst s a xs))
                (Settled-more s a xs p settled)),
        )
  | inr done ↦
      let e : time_slice a s ≡ rest s a xs = time_slice-rest s a xs j ∙ simp done in
      rw (e, done)
        (
          xs,
          (rest-Jobs s a xs j, rest-SharedTail s a xs h),
          ap (λ f. map (λ p. (p, f p)) xs) (rest-burst s a xs) ∙ view_others s a xs j.distinct.0,
          (λ p settled.
              subst (λ f. Settled f xs p) (sym (rest-burst s a xs))
                (Settled-done s a xs p done settled)),
        )
]

pub schedule-zero : (s : Scheduler) → schedule zero s ≡ s
unfolding schedule
schedule-zero s = refl

pub schedule_stop : (n : ℕ) (s : Scheduler) → s.job_head ≡ none → schedule n s ≡ s
unfolding schedule
schedule_stop zero s e = refl
schedule_stop (suc n) s e =
    subst (λ o. schedule (suc n) (record s { job_head = o }) ≡ record s { job_head = o }) (sym e)
      refl

pub schedule_on :
    (n a : ℕ) (s : Scheduler)
    → s.job_head ≡ some a
    → schedule (suc n) s ≡ schedule n (time_slice a s)
unfolding schedule
schedule_on n a s e =
    subst
      (λ o.
        schedule (suc n) (record s { job_head = o })
        ≡ schedule n (time_slice a (record s { job_head = o })))
      (sym e) refl

turns_none : (n : ℕ) → turns n [] ≡ []
turns_none zero = refl
turns_none (suc n) = turns_none n

-- The two linked lists that share their nodes behave as one first-in first-out queue: behind any
-- number of rounds the job queue holds the processes, in the order and with the burst times, that
-- as many turns of the plain queue leave, whatever the ready queue has written into the nodes.
pub schedule-turns :
    (n : ℕ) (s : Scheduler) (xs : List ℕ)
    → Queues s xs
    → (ys : List ℕ) × Queues (schedule n s) ys × (view (schedule n s) ys ≡ turns n (view s xs))
schedule-turns zero s xs q = rw (schedule-zero s) (xs, q, refl)
schedule-turns (suc n) s [] q = rw (schedule_stop (suc n) s q.0.path, turns_none n) ([], q, refl)
schedule-turns (suc n) s (a ∷ xs) q =
    let (ys, q', e, _) = time_slice-turn s a xs q in
    let (zs, q'', e') = schedule-turns n (time_slice a s) ys q' in
    rw (schedule_on n a s q.0.path.1.0) (zs, q'', e' ∙ ap (turns n) e)

-- What is left to do, in rounds at most.
abbrev pub work : List (ℕ × ℤ) → ℕ
work [] = 0
work ((process, burst) ∷ queue) = suc (pos_part burst + work queue)

work-append_one :
    (queue : List (ℕ × ℤ)) (p : ℕ) (b : ℤ)
    → work (queue ++ (p, b) ∷ []) ≡ work queue + suc (pos_part b)
work-append_one [] p b = omega arith
work-append_one ((q, c) ∷ queue) p b = let e = work-append_one queue p b in omega arith

positive : (z : ℤ) → ltb_ℤ (pos 0) z ≡ true → neg_part z ≡ 0
positive (pos n) e = refl
positive (negsuc n) e = absurd cc

-- A turn leaves less to do.
pub work-turn :
    (p : ℕ) (b : ℤ) (queue : List (ℕ × ℤ))
    → suc (work (turn ((p, b) ∷ queue))) ≤ work ((p, b) ∷ queue)
work-turn p b queue = elim (Bool-cases (ltb_ℤ (pos 0) (less b quantum))) [
  | inl more ↦
      let parts = less_parts b quantum in
      let no_more = positive (less b quantum) more in
      let behind = work-append_one queue p (less b quantum) in rw more (omega arith)
  | inr done ↦ rw done (omega arith)
]

pub turns_end : (n : ℕ) (queue : List (ℕ × ℤ)) → work queue ≤ n → turns n queue ≡ []
turns_end zero [] le = refl
turns_end zero (x ∷ queue) le = absurd (omega arith)
turns_end (suc n) [] le = turns_none n
turns_end (suc n) (x ∷ queue) le =
    let less_work = work-turn x.0 x.1 queue in turns_end n (turn (x ∷ queue)) (omega arith)
