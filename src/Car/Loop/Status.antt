-- ===== src/Car/Loop/Status.antt =====
-- What one round of assignment2/car.c, `elevator_loop`, may do to the status of the car.
use cab403work.Base.{◌≡◌, refl, ◌⊎◌, arith}
use cab403work.Base.Text.{Bytes}
use cab403work.Libc.{streq_iff}
use cab403work.Shared.Memory.{opening, opened, closing, closed, between}
use cab403work.Car.Elevator.{Env, Elevator}
use cab403work.Car.Emergency.{emergency_signalled, emergency_timed_out}
use cab403work.Car.Service.{service_signalled, service_timed_out}
use cab403work.Car.Normal.{normal_signalled, normal_timed_out}
use cab403work.Car.Loop.{Ret, signalled, timed_out, failed, handle}

-- The status that may follow a status in one round.
pub data Follows (s t : Bytes) : Type 0 where
  stays : t ≡ s → Follows s t
  opens : (s ≡ closed) ⊎ (s ≡ closing) ⊎ (s ≡ between) → t ≡ opening → Follows s t
  open_ends : s ≡ opening → t ≡ opened → Follows s t
  closes : (s ≡ opening) ⊎ (s ≡ opened) → t ≡ closing → Follows s t
  shuts : (s ≡ closing) ⊎ (s ≡ between) → t ≡ closed → Follows s t
  departs : (s ≡ closed) ⊎ (s ≡ closing) → t ≡ between → Follows s t

Follows-refl : (s : Bytes) → Follows s s
Follows-refl s = stays refl

ruleset status_rules = (streq_iff, stays, opens, open_ends, closes, shuts, departs)

module _ (env : Env) (e : Elevator) where
  emergency_signalled-Follows : Follows e.shm.status (emergency_signalled env e).shm.status
  unfolding emergency_signalled
  emergency_signalled-Follows = grind (arith, status_rules)

  emergency_timed_out-Follows : Follows e.shm.status (emergency_timed_out env e).shm.status
  unfolding emergency_timed_out
  emergency_timed_out-Follows = grind (arith, status_rules)

  service_signalled-Follows : Follows e.shm.status (service_signalled env e).shm.status
  unfolding service_signalled
  service_signalled-Follows = grind (arith, status_rules)

  service_timed_out-Follows : Follows e.shm.status (service_timed_out env e).shm.status
  unfolding service_timed_out
  service_timed_out-Follows = grind (arith, status_rules)

  normal_signalled-Follows : Follows e.shm.status (normal_signalled env e).shm.status
  unfolding normal_signalled
  normal_signalled-Follows = grind (arith, status_rules)

  normal_timed_out-Follows : Follows e.shm.status (normal_timed_out env e).shm.status
  unfolding normal_timed_out
  normal_timed_out-Follows = grind (arith, status_rules)

-- In every mode and whatever the wait returned, a round keeps the status or takes one step of the
-- door cycle: to Opening only from Closed, Closing or Between, to Open only from Opening, to
-- Closing only from Opening or Open, to Closed only from Closing or Between, and to Between only
-- from Closed or Closing.
pub handle-Follows :
    (env : Env) (ret : Ret) (e : Elevator) → Follows e.shm.status (handle env ret e).shm.status
unfolding handle
handle-Follows env signalled e = ground (
  arith,
  emergency_signalled-Follows env e,
  service_signalled-Follows env e,
  normal_signalled-Follows env e,
)
handle-Follows env timed_out e = ground (
  arith,
  emergency_timed_out-Follows env e,
  service_timed_out-Follows env e,
  normal_timed_out-Follows env e,
)
handle-Follows env failed e = ground (arith, Follows-refl e.shm.status)
