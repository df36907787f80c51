-- ===== src/Car/Loop/Motion.antt =====
-- When the floor of the car changes in assignment2/car.c, `elevator_loop`, and what holds of a
-- car that stands between two floors.
use cab403work.Base.{◌<◌, ◌≡◌, ◌⊎◌, inl, inr, true, Bool-cases, ◌==◌, arith}
use cab403work.Libc.{streq, streq_iff}
use cab403work.Shared.Memory.{between}
use cab403work.Car.Floors.{move_floor}
use cab403work.Car.Elevator.{Env, Elevator, elsewhere, status_is}
use cab403work.Car.Emergency.{emergency_signalled, emergency_timed_out}
use cab403work.Car.Service.{service_signalled, service_timed_out}
use cab403work.Car.Normal.{normal_signalled, normal_timed_out}
use cab403work.Car.Loop.{
  Ret, signalled, timed_out, failed, in_emergency, in_service, in_normal, handle,
}

-- The floor is kept, or a car between two floors ends a move at a timeout.
abbrev pub FloorChange : Ret → Elevator → Elevator → Type 0
FloorChange ret e e' =
    (e'.shm.current_floor ≡ e.shm.current_floor)
    ⊎ ((ret ≡ timed_out)
        × (e.shm.status ≡ between)
        × (e'.shm.current_floor ≡ move_floor e.shm.current_floor e.shm.destination_floor))

-- A car between two floors has somewhere to go.
abbrev pub IsBound : Elevator → Type 0
IsBound e = status_is e between ≡ true → elsewhere e ≡ true

-- The status is kept, or the controller is told and the delay restarts.
abbrev pub Announced : Elevator → Elevator → Type 0
Announced e e' =
    (e'.shm.status ≡ e.shm.status) ⊎ ((e.notices < e'.notices) × (e.readings < e'.readings))

record Keeps (ret : Ret) (e e' : Elevator) : Type 0 where
  moves : FloorChange ret e e'
  bound : IsBound e → IsBound e'
  announced : Announced e e'

module _ (env : Env) (e : Elevator) where
  emergency_signalled-Keeps : Keeps signalled e (emergency_signalled env e)
  unfolding emergency_signalled streq
  emergency_signalled-Keeps = ground arith

  emergency_timed_out-Keeps : Keeps timed_out e (emergency_timed_out env e)
  unfolding emergency_timed_out streq
  emergency_timed_out-Keeps = ground (arith, streq_iff e.shm.status between)

  service_signalled-Keeps : Keeps signalled e (service_signalled env e)
  unfolding service_signalled streq
  service_signalled-Keeps = ground arith

  service_timed_out-Keeps : Keeps timed_out e (service_timed_out env e)
  unfolding service_timed_out streq
  service_timed_out-Keeps = ground (arith, streq_iff e.shm.status between)

  normal_signalled-Keeps : Keeps signalled e (normal_signalled env e)
  unfolding normal_signalled streq
  normal_signalled-Keeps = ground arith

  normal_timed_out-Keeps : Keeps timed_out e (normal_timed_out env e)
  unfolding normal_timed_out streq
  normal_timed_out-Keeps = ground (arith, streq_iff e.shm.status between)

  failed-Keeps : Keeps failed e e
  failed-Keeps = ground arith

-- What holds of the body of each mode holds of a round.
by_mode :
    (env : Env) (ret : Ret) (e : Elevator) (P : Elevator → Type 0)
    → P (in_emergency env ret e)
    → P (in_service env ret e)
    → P (in_normal env ret e)
    → P (handle env ret e)
unfolding handle
by_mode env ret e P p q r = elim (Bool-cases (e.shm.emergency_mode == 1)) [
  | inl emergency ↦ rw emergency p
  | inr calm ↦ elim (Bool-cases (e.shm.individual_service_mode == 1)) [
    | inl service ↦ rw (calm, service) q
    | inr normal ↦ rw (calm, normal) r
  ]
]

handle-Keeps : (env : Env) (ret : Ret) (e : Elevator) → Keeps ret e (handle env ret e)
handle-Keeps env signalled e =
    by_mode env signalled e (Keeps signalled e) (emergency_signalled-Keeps env e)
      (service_signalled-Keeps env e) (normal_signalled-Keeps env e)
handle-Keeps env timed_out e =
    by_mode env timed_out e (Keeps timed_out e) (emergency_timed_out-Keeps env e)
      (service_timed_out-Keeps env e) (normal_timed_out-Keeps env e)
handle-Keeps env failed e =
    let kept = failed-Keeps env e in by_mode env failed e (Keeps failed e) kept kept kept

-- In every mode and whatever the wait returned, a round keeps the floor of the car, or the wait
-- timed out, the status was Between, and the new floor is one `move_floor` from the old one to the
-- destination.
pub handle-FloorChange :
    (env : Env) (ret : Ret) (e : Elevator) → FloorChange ret e (handle env ret e)
handle-FloorChange env ret e = (handle-Keeps env ret e).moves

-- Every round keeps it that a car between two floors has somewhere to go.
pub handle-IsBound : (env : Env) (ret : Ret) (e : Elevator) → IsBound e → IsBound (handle env ret e)
handle-IsBound env ret e = (handle-Keeps env ret e).bound

-- In every mode and whatever the wait returned, a round that changes the status writes to the pipe
-- to the controller's thread and reads the clock for a new deadline.
handle-Announced : (env : Env) (ret : Ret) (e : Elevator) → Announced e (handle env ret e)
handle-Announced env ret e = (handle-Keeps env ret e).announced
