-- ===== src/RoundRobin/Served.antt =====
-- The whole of exam/week9/roundRobinScheduling_Skeleton.c, `main`: the loop ends, with every process
-- served.
use cab403work.Base.{
  ℕ, zero, suc, ◌≡◌, ◌≤◌, inl, inr, refl, sym, ◌∙◌, subst, List, [], ◌∷◌, ◌++◌, map, append_assoc,
  append-nil, Option, none, arith,
}
use cab403work.Base.Text.{All}
use cab403work.Base.Int.{ℤ, pos, ◌≤ℤ◌}
use cab403work.Links.{Links, link, Apart, Distinct, Distinct-split, Seg-link}
use cab403work.RoundRobin.{
  Scheduler, insert_node_job_queue, time_slice, schedule, create_processes, no_processes,
}
use cab403work.RoundRobin.Jobs.{Jobs, Reaches, insert-Jobs}
use cab403work.RoundRobin.Schedule.{
  work-turn, Queues, Settled, Among, view, work, turns_end, time_slice-turn, schedule-turns,
  schedule_on, schedule_stop,
}

-- The job queue, before the first round.
pub record Prepared (s : Scheduler) (xs : List ℕ) (burst : ℕ → ℤ) : Type 0 where
  pub jobs : Jobs s xs
  pub head : s.ready_head ≡ none
  pub tail : s.ready_tail ≡ none
  pub bursts : s.burst ≡ burst

Reaches-link :
    (next : Links) (a : ℕ) (r head : Option ℕ) (xs : List ℕ)
    → Apart a xs
    → Reaches next head xs
    → Reaches (link next a r) head xs
Reaches-link next a r head [] n p = p
Reaches-link next a r head (x ∷ xs) n (end, p) = (end, Seg-link next a r head (x ∷ xs) end n p)

create_one :
    (s : Scheduler) (xs : List ℕ) (burst : ℕ → ℤ) (node : ℕ)
    → Prepared s xs burst
    → Apart node xs
    → Prepared
        (insert_node_job_queue node (record s { next = link s.next node none }))
        (xs ++ node ∷ [])
        burst
unfolding insert_node_job_queue
create_one s xs burst node p n = record {
  jobs =
      insert-Jobs (record s { next = link s.next node none }) xs node
        (record {
          path = Reaches-link s.next node none s.job_head xs n p.jobs.path;
          tail = p.jobs.tail;
          distinct = p.jobs.distinct;
        })
        n;
  head = p.head;
  tail = p.tail;
  bursts = p.bursts;
}

create-Prepared :
    (nodes : List ℕ) (s : Scheduler) (xs : List ℕ) (burst : ℕ → ℤ)
    → Prepared s xs burst
    → Distinct (xs ++ nodes)
    → Prepared (create_processes nodes s) (xs ++ nodes) burst
unfolding create_processes
create-Prepared [] s xs burst p d = subst (λ l. Prepared s l burst) (sym (append-nil xs)) p
create-Prepared (node ∷ nodes) s xs burst p d =
    let (n, _, _) = Distinct-split xs node nodes d in
    subst
      (λ l.
        Prepared
          (create_processes nodes
            (insert_node_job_queue node (record s { next = link s.next node none })))
          l burst)
      (append_assoc xs (node ∷ []) nodes)
      (create-Prepared nodes
        (insert_node_job_queue node (record s { next = link s.next node none })) (xs ++ node ∷ [])
        burst (create_one s xs burst node p n)
        (subst Distinct (sym (append_assoc xs (node ∷ []) nodes)) d))

-- The queues that `main` starts its loop with.
abbrev pub prepared : List ℕ → Links → (ℕ → ℤ) → Scheduler
prepared nodes next burst = create_processes nodes (no_processes next burst)

pub prepared-Prepared :
    (nodes : List ℕ) (next : Links) (burst : ℕ → ℤ)
    → Distinct nodes
    → Prepared (prepared nodes next burst) nodes burst
prepared-Prepared nodes next burst d =
    create-Prepared nodes (no_processes next burst) [] burst
      (record {
        jobs = record { path = refl; tail = refl; distinct = tt };
        head = refl;
        tail = refl;
        bursts = refl;
      })
      d

pub Prepared-Queues :
    (s : Scheduler) (xs : List ℕ) (burst : ℕ → ℤ) → Prepared s xs burst → Queues s xs
Prepared-Queues s [] burst p = (p.jobs, tt)
Prepared-Queues s (x ∷ xs) burst p = (p.jobs, inl p.tail)

-- A process that leaves the queue has nothing left to do.
schedule-Settled :
    (n : ℕ) (s : Scheduler) (xs : List ℕ)
    → Queues s xs
    → work (view s xs) ≤ n
    → (p : ℕ) → Settled s.burst xs p
    → (schedule n s).burst p ≤ℤ pos 0
schedule-Settled n s [] q le p settled =
    rw (schedule_stop n s q.0.path) (elim settled [ inl m ↦ absurd m | inr h ↦ h ])
schedule-Settled zero s (a ∷ xs) q le p settled = absurd (omega arith)
schedule-Settled (suc n) s (a ∷ xs) q le p settled =
    let (ys, q', e, keeps) = time_slice-turn s a xs q in
    rw (schedule_on n a s q.0.path.1.0) (
      schedule-Settled n (time_slice a s) ys q'
        (rw e (let decreases = work-turn a (s.burst a) (view s xs) in omega arith)) p
        (keeps p settled))

ended : (s : Scheduler) (ys : List ℕ) → Queues s ys → view s ys ≡ [] → s.job_head ≡ none
ended s [] q e = q.0.path
ended s (y ∷ ys) q e = absurd cc

All-Among : (P : ℕ → Type 0) (xs : List ℕ) → ((p : ℕ) → Among p xs → P p) → All P xs
All-Among P [] h = tt
All-Among P (x ∷ xs) h = (h x (inl refl), All-Among P xs (λ p m. h p (inr m)))

-- The loop of `main` ends: for processes at different addresses, whatever their nodes held and
-- whatever their burst times, a number of rounds that the sum of the burst times and the number of
-- processes bounds leaves the job queue empty and every process with nothing left to do.
pub schedule-ends :
    (nodes : List ℕ) (next : Links) (burst : ℕ → ℤ) (n : ℕ)
    → Distinct nodes
    → work (map (λ p. (p, burst p)) nodes) ≤ n
    → let s = schedule n (prepared nodes next burst) in
      (s.job_head ≡ none) × All (λ p. s.burst p ≤ℤ pos 0) nodes
schedule-ends nodes next burst n d le =
    let p = prepared-Prepared nodes next burst d in
    let q = Prepared-Queues (prepared nodes next burst) nodes burst p in
    let enough : work (view (prepared nodes next burst) nodes) ≤ n =
      subst (λ f. work (map (λ x. (x, f x)) nodes) ≤ n) (sym p.bursts) le in
    let (ys, q', e) = schedule-turns n (prepared nodes next burst) nodes q in
    (
      ended (schedule n (prepared nodes next burst)) ys q'
          (e ∙ turns_end n (view (prepared nodes next burst) nodes) enough),
      All-Among (λ x. (schedule n (prepared nodes next burst)).burst x ≤ℤ pos 0) nodes
          (λ x m. schedule-Settled n (prepared nodes next burst) nodes q enough x (inl m)),
    )
