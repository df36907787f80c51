-- ===== src/Car/Loop.antt =====
-- assignment2/car.c, `elevator_loop`: one round of the loop, and the loop over a sequence of
-- rounds. The mutex is held but for the wait, so a round is one critical section: what other
-- processes and threads did to the shared memory before it is part of the round's `Wake`.
pub mod Status
pub mod Motion
pub mod Travel
pub mod Rest
pub mod Faults
use cab403work.Base.{ℕ, Bool, true, false, List, [], ◌∷◌, ◌==◌, if◌then◌else◌, Option, none, some}
use cab403work.Base.Text.{Bytes}
use cab403work.Shared.Memory.{SharedMem, init_shm}
use cab403work.Car.Clock.{Timespec, has_passed}
use cab403work.Car.Elevator.{Env, Elevator, ◌▷◌, calculate_absolute_timeout}
use cab403work.Car.Emergency.{emergency_signalled, emergency_timed_out}
use cab403work.Car.Service.{service_signalled, service_timed_out}
use cab403work.Car.Normal.{normal_signalled, normal_timed_out}

-- `ret`: 0, ETIMEDOUT, or another error of `pthread_cond_timedwait`.
pub data Ret : Type 0 where
  signalled timed_out failed : Ret

-- What a round finds: CLOCK_MONOTONIC; if it waits, what the wait returns and the shared memory
-- after it.
pub record Wake : Type 0 where
  pub monotonic : Timespec
  pub ret : Ret
  pub memory : SharedMem

module _ (env : Env) where
  abbrev pub in_emergency : Ret → Elevator → Elevator
  in_emergency signalled e = emergency_signalled env e
  in_emergency timed_out e = emergency_timed_out env e
  in_emergency failed e = e

  abbrev pub in_service : Ret → Elevator → Elevator
  in_service signalled e = service_signalled env e
  in_service timed_out e = service_timed_out env e
  in_service failed e = e

  abbrev pub in_normal : Ret → Elevator → Elevator
  in_normal signalled e = normal_signalled env e
  in_normal timed_out e = normal_timed_out env e
  in_normal failed e = e

  -- The body behind the wait, on the value of `ret`.
  unfoldable pub handle : Ret → Elevator → Elevator
  handle ret e =
      if e.shm.emergency_mode == 1
      then in_emergency ret e
      else if e.shm.individual_service_mode == 1
      then in_service ret e
      else in_normal ret e

  -- A deadline that has passed is a timeout at once, with no wait.
  unfoldable pub round : Elevator → Wake → Elevator
  unfolding handle
  round e w =
      if has_passed w.monotonic e.timeout
      then handle timed_out e
      else handle w.ret (record e { shm = w.memory })

  unfoldable pub rounds : Elevator → List Wake → Elevator
  rounds e [] = e
  rounds e (w ∷ ws) = rounds (round e w) ws

  -- The first `calculate_absolute_timeout`, on the memory that `init_shm` leaves.
  unfoldable pub launched : SharedMem → Elevator
  launched memory =
      record {
        shm = memory;
        timeout = record { tv_sec = 0; tv_nsec = 0 };
        readings = 0;
        notices = 0;
        broadcasts = 0;
      }
      ▷ calculate_absolute_timeout env

  abbrev pub launch_from : Option SharedMem → Option Elevator
  launch_from none = none
  launch_from (some memory) = some (launched memory)

  -- None where the lowest floor does not fit into the memory.
  unfoldable pub start : Bytes → Option Elevator
  unfolding init_shm launched
  start lowest_floor = launch_from (init_shm lowest_floor)
