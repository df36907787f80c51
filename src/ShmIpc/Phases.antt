-- ===== src/ShmIpc/Phases.antt =====
-- The global states of the exchange of assignment1/sharedMemory/shm_ipc.c, and where each turn leads.
use cab403work.Base.{ℕ, ◌+◌, ◌*◌, ◌≡◌, refl, ap, Bool, true, false, List, [], ◌∷◌, ◌++◌, length}
use cab403work.Base.Text.{All}
use cab403work.ShmIpc.{
  Operation, op_add, op_sub, op_mul, op_div, op_quit, Arithmetic, SharedData, Task, looping,
  finishing, ControllerAt, calling, written, posted, answered, gone, WorkerAt, waiting, woken, done,
  unmapping, stopped, Ipc, compute, controller_step, worker_step, take_turn,
}

-- One of the four operations.
abbrev pub IsWork : Operation → Type 0
IsWork op_quit = ⊥
IsWork op_add = Unit {0}
IsWork op_sub = Unit {0}
IsWork op_mul = Unit {0}
IsWork op_div = Unit {0}

module _ {D : Type 0} (arithmetic : Arithmetic D) where
  -- What the call should give.
  abbrev pub answer : Task D → D
  answer q = elim q.operation [
    | op_add ↦ arithmetic.plus q.lhs q.rhs
    | op_sub ↦ arithmetic.minus q.lhs q.rhs
    | op_mul ↦ arithmetic.times q.lhs q.rhs
    | op_div ↦ arithmetic.over q.lhs q.rhs
    | op_quit ↦ arithmetic.nought
  ]

  -- The global states that the exchange goes through. A value `x` is the result in the memory.
  pub data Phase : Type 0 where
    calm : List (Task D) → Task D → D → Phase
    wrote asked taken : Task D → List (Task D) → D → Phase
    did replied got : Task D → List (Task D) → Phase
    quit_wrote quit_asked quit_taken quit_did : D → Phase
    quit_replied quit_got quit_calm over : Bool → D → Phase

  abbrev ended_at : Bool → WorkerAt
  ended_at false = unmapping
  ended_at true = stopped

  abbrev memory : ℕ → ℕ → Task D → D → SharedData D
  memory c w q x = record {
    controller_semaphore = c;
    worker_semaphore = w;
    operation = q.operation;
    lhs = q.lhs;
    rhs = q.rhs;
    result = x;
  }

  abbrev quit : Task D
  quit = record { operation = op_quit; lhs = arithmetic.nought; rhs = arithmetic.nought }

  abbrev at : ControllerAt D → WorkerAt → SharedData D → Ipc D
  at c w m = record { controller = c; worker = w; memory = m; printed = [] }

  abbrev place : Phase → Ipc D
  place (calm qs q x) = at (calling (looping qs)) waiting (memory 0 0 q x)
  place (wrote q qs x) = at (written (looping qs)) waiting (memory 0 0 q x)
  place (asked q qs x) = at (posted (looping qs)) waiting (memory 1 0 q x)
  place (taken q qs x) = at (posted (looping qs)) woken (memory 0 0 q x)
  place (did q qs) = at (posted (looping qs)) (done true) (memory 0 0 q (answer q))
  place (replied q qs) = at (posted (looping qs)) waiting (memory 0 1 q (answer q))
  place (got q qs) = at (answered (looping qs)) waiting (memory 0 0 q (answer q))
  place (quit_wrote x) = at (written finishing) waiting (memory 0 0 quit x)
  place (quit_asked x) = at (posted finishing) waiting (memory 1 0 quit x)
  place (quit_taken x) = at (posted finishing) woken (memory 0 0 quit x)
  place (quit_did x) = at (posted finishing) (done false) (memory 0 0 quit x)
  place (quit_replied b x) = at (posted finishing) (ended_at b) (memory 0 1 quit x)
  place (quit_got b x) = at (answered finishing) (ended_at b) (memory 0 0 quit x)
  place (quit_calm b x) = at (calling finishing) (ended_at b) (memory 0 0 quit x)
  place (over b x) = at gone (ended_at b) (memory 0 0 quit x)

  abbrev pub state : Phase → List D → Ipc D
  state p out = record (place p) { printed = out }

  -- The calls whose results are not printed yet.
  abbrev pub open_calls : Phase → List (Task D)
  open_calls (calm qs q x) = qs
  open_calls (wrote q qs x) = q ∷ qs
  open_calls (asked q qs x) = q ∷ qs
  open_calls (taken q qs x) = q ∷ qs
  open_calls (did q qs) = q ∷ qs
  open_calls (replied q qs) = q ∷ qs
  open_calls (got q qs) = q ∷ qs
  open_calls _ = []

  unfoldable pub AllWork : List (Task D) → Type 0
  AllWork = All (λ q. IsWork q.operation)

  -- The turns with an effect that are left.
  abbrev bit : Bool → ℕ
  bit false = 1
  bit true = 0

  abbrev pub rank : Phase → ℕ
  rank (calm qs q x) = 7 * length qs + 9
  rank (wrote q qs x) = 7 * length qs + 15
  rank (asked q qs x) = 7 * length qs + 14
  rank (taken q qs x) = 7 * length qs + 13
  rank (did q qs) = 7 * length qs + 12
  rank (replied q qs) = 7 * length qs + 11
  rank (got q qs) = 7 * length qs + 10
  rank (quit_wrote x) = 8
  rank (quit_asked x) = 7
  rank (quit_taken x) = 6
  rank (quit_did x) = 5
  rank (quit_replied b x) = 3 + bit b
  rank (quit_got b x) = 2 + bit b
  rank (quit_calm b x) = 1 + bit b
  rank (over b x) = bit b

  -- Where a turn leads.
  unfoldable pub next : Bool → Phase → Phase
  next true (calm [] q x) = quit_wrote x
  next true (calm (r ∷ qs) q x) = wrote r qs x
  next true (wrote q qs x) = asked q qs x
  next true (asked q qs x) = asked q qs x
  next true (taken q qs x) = taken q qs x
  next true (did q qs) = did q qs
  next true (replied q qs) = got q qs
  next true (got q qs) = calm qs q (answer q)
  next true (quit_wrote x) = quit_asked x
  next true (quit_asked x) = quit_asked x
  next true (quit_taken x) = quit_taken x
  next true (quit_did x) = quit_did x
  next true (quit_replied b x) = quit_got b x
  next true (quit_got b x) = quit_calm b x
  next true (quit_calm b x) = over b x
  next true (over b x) = over b x
  next false (calm qs q x) = calm qs q x
  next false (wrote q qs x) = wrote q qs x
  next false (asked q qs x) = taken q qs x
  next false (taken q qs x) = did q qs
  next false (did q qs) = replied q qs
  next false (replied q qs) = replied q qs
  next false (got q qs) = got q qs
  next false (quit_wrote x) = quit_wrote x
  next false (quit_asked x) = quit_taken x
  next false (quit_taken x) = quit_did x
  next false (quit_did x) = quit_replied false x
  next false (quit_replied b x) = quit_replied true x
  next false (quit_got b x) = quit_got true x
  next false (quit_calm b x) = quit_calm true x
  next false (over b x) = over true x

  abbrev pub prints : Bool → Phase → List D
  prints false p = []
  prints true (got q qs) = answer q ∷ []
  prints true _ = []

  compute_work :
      (op : Operation) (l r x : D)
      → IsWork op
      → let q : Task D = record { operation = op; lhs = l; rhs = r } in
        worker_step arithmetic woken (memory 0 0 q x) ≡ (done true, memory 0 0 q (answer q))
  unfolding worker_step compute
  compute_work op_add l r x w = refl
  compute_work op_sub l r x w = refl
  compute_work op_mul l r x w = refl
  compute_work op_div l r x w = refl
  compute_work op_quit l r x w = absurd w

  pub controller-next :
      (p : Phase) (out : List D)
      → take_turn arithmetic true (state p out) ≡ state (next true p) (out ++ prints true p)
  unfolding take_turn controller_step next
  controller-next (calm [] q x) out = refl
  controller-next (calm (r ∷ qs) q x) out = refl
  controller-next (wrote q qs x) out = refl
  controller-next (asked q qs x) out = refl
  controller-next (taken q qs x) out = refl
  controller-next (did q qs) out = refl
  controller-next (replied q qs) out = refl
  controller-next (got q qs) out = refl
  controller-next (quit_wrote x) out = refl
  controller-next (quit_asked x) out = refl
  controller-next (quit_taken x) out = refl
  controller-next (quit_did x) out = refl
  controller-next (quit_replied b x) out = refl
  controller-next (quit_got b x) out = refl
  controller-next (quit_calm b x) out = refl
  controller-next (over b x) out = refl

  pub worker-next :
      (p : Phase) (out : List D)
      → AllWork (open_calls p)
      → take_turn arithmetic false (state p out) ≡ state (next false p) out
  unfolding take_turn worker_step compute next AllWork
  worker-next (calm qs q x) out h = refl
  worker-next (wrote q qs x) out h = refl
  worker-next (asked q qs x) out h = refl
  worker-next (taken q qs x) out (w, h) =
      ap (λ r. record (at (posted (looping qs)) r.0 r.1) { printed = out })
        (compute_work q.operation q.lhs q.rhs x w)
  worker-next (did q qs) out h = refl
  worker-next (replied q qs) out h = refl
  worker-next (got q qs) out h = refl
  worker-next (quit_wrote x) out h = refl
  worker-next (quit_asked x) out h = refl
  worker-next (quit_taken x) out h = refl
  worker-next (quit_did x) out h = refl
  worker-next (quit_replied false x) out h = refl
  worker-next (quit_replied true x) out h = refl
  worker-next (quit_got false x) out h = refl
  worker-next (quit_got true x) out h = refl
  worker-next (quit_calm false x) out h = refl
  worker-next (quit_calm true x) out h = refl
  worker-next (over false x) out h = refl
  worker-next (over true x) out h = refl
