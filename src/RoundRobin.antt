-- ===== src/RoundRobin.antt =====
-- exam/week9/roundRobinScheduling_Skeleton.c: processes in a job queue and a ready queue, two linked
-- lists over the same nodes. A process is the address of its node; `next` is its field `nextNode`,
-- which both queues write. The burst times are far from the bounds of `int`: they start between 0
-- and 98, and only what is above 0 is lessened.
pub mod Jobs
pub mod Endless
pub mod Served
pub mod Schedule
use cab403work.Base.{
  ℕ, zero, suc, Bool, true, false, List, [], ◌∷◌, ◌++◌, Option, none, some, ◌==◌, if◌then◌else◌,
}
use cab403work.Base.Int.{ℤ, pos, ltb_ℤ, less}
use cab403work.Links.{Links, link, behind_prev, head_or}

-- The nodes and the four variables of the queues.
pub record Scheduler : Type 0 where
  pub next : Links
  pub burst : ℕ → ℤ
  pub job_head : Option ℕ
  pub job_tail : Option ℕ
  pub ready_head : Option ℕ
  pub ready_tail : Option ℕ

abbrev pub quantum : ℕ
quantum = 20

unfoldable pub insert_node_job_queue : ℕ → Scheduler → Scheduler
insert_node_job_queue node s = record s {
  job_head = head_or s.job_tail node s.job_head;
  next = behind_prev s.job_tail node s.next;
  job_tail = some node;
}

-- `jobQueueHead == jobQueueTail`, where the head is `node`.
abbrev pub is_tail : ℕ → Option ℕ → Bool
is_tail node none = false
is_tail node (some tail) = node == tail

-- It returns the head that it removes.
unfoldable pub remove_job_queue_head_node : Scheduler → Scheduler
remove_job_queue_head_node s = elim s.job_head [
  | none ↦ s
  | some head ↦
      if is_tail head s.job_tail
      then record s { job_head = none; job_tail = none }
      else record s { job_head = s.next head }
]

unfoldable pub insert_node_to_ready_queue : ℕ → Scheduler → Scheduler
insert_node_to_ready_queue node s = record s {
  ready_head = head_or s.ready_tail node s.ready_head;
  next = behind_prev s.ready_tail node s.next;
  ready_tail = some node;
}

-- `jobQueueProcess->burstTime -= quantum`
abbrev pub run_slice : ℕ → (ℕ → ℤ) → ℕ → ℤ
run_slice process burst p = if p == process then less (burst process) quantum else burst p

-- The body of the loop of `main`, where the job queue's head is `process`.
unfoldable pub time_slice : ℕ → Scheduler → Scheduler
unfolding insert_node_job_queue insert_node_to_ready_queue remove_job_queue_head_node
time_slice process s =
    let removed = remove_job_queue_head_node s in
    let ran = record removed { burst = run_slice process removed.burst } in
    if ltb_ℤ (pos 0) (ran.burst process)
    then insert_node_to_ready_queue process (insert_node_job_queue process ran)
    else ran

-- The loop, with fuel.
unfoldable pub schedule : ℕ → Scheduler → Scheduler
unfolding time_slice
schedule zero s = s
schedule (suc n) s = elim s.job_head [ none ↦ s | some process ↦ schedule n (time_slice process s) ]

-- The queues before `main` fills them.
abbrev pub no_processes : Links → (ℕ → ℤ) → Scheduler
no_processes next burst = record {
  next = next;
  burst = burst;
  job_head = none;
  job_tail = none;
  ready_head = none;
  ready_tail = none;
}

-- The loop of `main` that makes the processes: each comes from malloc with its `nextNode` NULL.
unfoldable pub create_processes : List ℕ → Scheduler → Scheduler
unfolding insert_node_job_queue
create_processes [] s = s
create_processes (node ∷ nodes) s =
    create_processes nodes (insert_node_job_queue node (record s { next = link s.next node none }))

-- `printLinkedList`: the processes it prints, with fuel; none if the fuel does not reach the end.
unfoldable pub print_from : ℕ → Links → ℕ → Option (List ℕ)
print_from zero next node = none
print_from (suc n) next node = elim (next node) [
  | none ↦ some (node ∷ [])
  | some behind ↦ elim (print_from n next behind) [
    | none ↦ none
    | some printed ↦ some (node ∷ printed)
  ]
]

unfoldable pub print_linked_list : ℕ → Links → Option ℕ → Option (List ℕ)
unfolding print_from
print_linked_list fuel next none = some []
print_linked_list fuel next (some head) = print_from fuel next head
