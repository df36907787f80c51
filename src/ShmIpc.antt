-- ===== src/ShmIpc.antt =====
-- assignment1/sharedMemory/shm_ipc.c and operations.h: a controller process that asks a worker
-- process for arithmetic, through shared memory and two semaphores. The type of the numbers is a
-- parameter, with the four operations on it.
pub mod Exchange
pub mod Phases
pub mod Turns
use cab403work.Base.{
  ℕ, zero, suc, Bool, true, false, not, ◌%◌, ◌==◌, List, [], ◌∷◌, ◌++◌, map, if◌then◌else◌,
}
use cab403work.Base.Int.{ℤ, pos, negsuc}

pub data Operation : Type 0 where
  op_add op_sub op_mul op_div op_quit : Operation

pub record Arithmetic (D : Type 0) : Type 0 where
  pub plus : D → D → D
  pub minus : D → D → D
  pub times : D → D → D
  pub over : D → D → D
  pub nought : D

-- `shared_data_t`; a semaphore is its count.
pub record SharedData (D : Type 0) : Type 0 where
  pub controller_semaphore : ℕ
  pub worker_semaphore : ℕ
  pub operation : Operation
  pub lhs : D
  pub rhs : D
  pub result : D

-- What `data` of `shared_memory_t` points to.
pub data Address : Type 0 where
  null map_failed mapped : Address

-- `shared_memory_t`, less its name.
pub record SharedMemory : Type 0 where
  pub fd : ℤ
  pub address : Address

abbrev pub is_error : ℤ → Bool
is_error (pos n) = false
is_error (negsuc n) = n == 0

abbrev pub is_mapped : Address → Bool
is_mapped null = true
is_mapped map_failed = false
is_mapped mapped = true

-- From what `shm_open`, `ftruncate` and `mmap` return.
unfoldable pub create_shared_object : ℤ → ℤ → Address → SharedMemory × Bool
create_shared_object opened truncated mapping =
    if is_error opened
    then (record { fd = opened; address = null }, false)
    else if is_error truncated
    then (record { fd = opened; address = null }, false)
    else (record { fd = opened; address = mapping }, is_mapped mapping)

unfoldable pub get_shared_object : ℤ → Address → SharedMemory × Bool
get_shared_object opened mapping =
    if is_error opened
    then (record { fd = opened; address = null }, false)
    else (record { fd = opened; address = mapping }, is_mapped mapping)

-- Also what `do_work` does to the worker's record at the end.
unfoldable pub destroy_shared_object : SharedMemory → SharedMemory
destroy_shared_object shm = record shm { fd = negsuc 0; address = null }

-- `next_op`, from what `rand` returns.
unfoldable pub next_op : ℕ → Operation
next_op random =
    let n = random % 4 in
    if n == 0 then op_add else if n == 1 then op_sub else if n == 2 then op_mul else op_div

-- A call of `request_work`.
pub record Task (D : Type 0) : Type 0 where
  pub operation : Operation
  pub lhs : D
  pub rhs : D

-- What `controller_main` goes on with behind a call: the rest of its loop, or its end.
pub data After (D : Type 0) : Type 0 where
  looping : List (Task D) → After D
  finishing : After D

-- Where the controller stands: between two calls, in a call with the request written, posted, or
-- answered, or at its end.
pub data ControllerAt (D : Type 0) : Type 0 where
  calling : After D → ControllerAt D
  written posted answered : After D → ControllerAt D
  gone : ControllerAt D

-- Where the worker stands: before `sem_wait`, behind it, behind the switch with `retVal`, before
-- `munmap`, or at its end.
pub data WorkerAt : Type 0 where
  waiting woken : WorkerAt
  done : Bool → WorkerAt
  unmapping stopped : WorkerAt

pub record Ipc (D : Type 0) : Type 0 where
  pub controller : ControllerAt D
  pub worker : WorkerAt
  pub memory : SharedData D
  pub printed : List D

abbrev pub write_request : {D : Type 0} → Task D → SharedData D → SharedData D
write_request q m = record m { operation = q.operation; lhs = q.lhs; rhs = q.rhs }

module _ {D : Type 0} (arithmetic : Arithmetic D) where
  -- The switch of `do_work`: the result, and `retVal`.
  unfoldable pub compute : Operation → SharedData D → SharedData D × Bool
  compute op_add m = (record m { result = arithmetic.plus m.lhs m.rhs }, true)
  compute op_sub m = (record m { result = arithmetic.minus m.lhs m.rhs }, true)
  compute op_mul m = (record m { result = arithmetic.times m.lhs m.rhs }, true)
  compute op_div m = (record m { result = arithmetic.over m.lhs m.rhs }, true)
  compute op_quit m = (m, false)

  -- A step of the controller, which does nothing while `sem_wait` blocks: its next place, the
  -- memory and what it prints.
  unfoldable pub controller_step :
      ControllerAt D → SharedData D → ControllerAt D × SharedData D × List D
  controller_step (calling (looping (q ∷ qs))) m = (written (looping qs), write_request q m, [])
  controller_step (calling (looping [])) m = (
    written finishing,
    write_request (record { operation = op_quit; lhs = arithmetic.nought; rhs = arithmetic.nought })
        m,
    [],
  )
  controller_step (calling finishing) m = (gone, m, [])
  controller_step (written after) m =
      (posted after, record m { controller_semaphore = suc m.controller_semaphore }, [])
  controller_step (posted after) m = elim m.worker_semaphore [
    | zero ↦ (posted after, m, [])
    | suc n ↦ (answered after, record m { worker_semaphore = n }, [])
  ]
  controller_step (answered (looping qs)) m = (calling (looping qs), m, m.result ∷ [])
  controller_step (answered finishing) m = (calling finishing, m, [])
  controller_step gone m = (gone, m, [])

  -- A step of the worker.
  unfoldable pub worker_step : WorkerAt → SharedData D → WorkerAt × SharedData D
  unfolding compute
  worker_step waiting m = elim m.controller_semaphore [
    | zero ↦ (waiting, m)
    | suc n ↦ (woken, record m { controller_semaphore = n })
  ]
  worker_step woken m = let (m', go_on) = compute m.operation m in (done go_on, m')
  worker_step (done go_on) m =
      (if go_on then waiting else unmapping, record m { worker_semaphore = suc m.worker_semaphore })
  worker_step unmapping m = (stopped, m)
  worker_step stopped m = (stopped, m)

  -- A turn of one of the processes.
  unfoldable pub take_turn : Bool → Ipc D → Ipc D
  unfolding controller_step worker_step
  take_turn true s =
      let (controller', memory', printed) = controller_step s.controller s.memory in
      record s { controller = controller'; memory = memory'; printed = s.printed ++ printed }
  take_turn false s =
      let (worker', memory') = worker_step s.worker s.memory in
      record s { worker = worker'; memory = memory' }

  unfoldable pub take_turns : List Bool → Ipc D → Ipc D
  unfolding take_turn
  take_turns [] s = s
  take_turns (side ∷ sides) s = take_turns sides (take_turn side s)

-- Both processes behind the creation of the memory, which `sem_init` gives two empty semaphores;
-- the calls of the controller are those of its loop.
abbrev pub started : {D : Type 0} → List (Task D) → SharedData D → Ipc D
started qs m = record {
  controller = calling (looping qs);
  worker = waiting;
  memory = record m { controller_semaphore = 0; worker_semaphore = 0 };
  printed = [];
}

-- The body of the loop of `controller_main`, from what `rand` gives.
abbrev pub draw : {D : Type 0} → ℕ × D × D → Task D
draw (random, lhs, rhs) = record { operation = next_op random; lhs = lhs; rhs = rhs }
