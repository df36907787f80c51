-- ===== src/Car/Loop/Rest.antt =====
-- A car in emergency mode, and a car that has nothing to do: assignment2/car.c, `elevator_loop`.
use cab403work.Base.{◌≡◌, ◌≢◌, arith}
use cab403work.Libc.{streq_iff}
use cab403work.Shared.Memory.{between}
use cab403work.Car.Floors.{move_floor}
use cab403work.Car.Elevator.{Env, Elevator}
use cab403work.Car.Emergency.{emergency_signalled, emergency_timed_out}
use cab403work.Car.Loop.{Ret, signalled, timed_out, failed, in_emergency, handle}

-- What a round in emergency mode leaves: the mode itself and the sensors; a car that is not
-- between floors keeps its floor and its destination and does not depart, and a car that was
-- between floors stops at the next one.
pub record EmergencyRound (ret : Ret) (e e' : Elevator) : Type 0 where
  pub mode : e'.shm.emergency_mode ≡ e.shm.emergency_mode
  pub sensors :
      (e'.shm.door_obstruction ≡ e.shm.door_obstruction)
      × (e'.shm.overload ≡ e.shm.overload)
      × (e'.shm.emergency_stop ≡ e.shm.emergency_stop)
  pub rests :
      e.shm.status ≢ between
      → (e'.shm.status ≢ between)
        × (e'.shm.current_floor ≡ e.shm.current_floor)
        × (e'.shm.destination_floor ≡ e.shm.destination_floor)
  pub stops :
      e.shm.status ≡ between
      → ret ≡ timed_out
      → (e'.shm.status ≢ between)
        × (e'.shm.current_floor ≡ move_floor e.shm.current_floor e.shm.destination_floor)
        × (e'.shm.destination_floor ≡ e'.shm.current_floor)

module _ (env : Env) (e : Elevator) where
  signalled-EmergencyRound : EmergencyRound signalled e (emergency_signalled env e)
  unfolding emergency_signalled
  signalled-EmergencyRound = ground arith

  timed_out-EmergencyRound : EmergencyRound timed_out e (emergency_timed_out env e)
  unfolding emergency_timed_out
  timed_out-EmergencyRound = ground (arith, streq_iff e.shm.status between)

  failed-EmergencyRound : EmergencyRound failed e e
  failed-EmergencyRound = ground arith

handle-emergency :
    (env : Env) (ret : Ret) (e : Elevator)
    → e.shm.emergency_mode ≡ 1
    → handle env ret e ≡ in_emergency env ret e
unfolding handle
handle-emergency env ret e h = simp h

-- A round in emergency mode, whatever the wait returned, keeps the mode and the sensors; a car
-- that is not between floors keeps its floor and its destination and does not depart, and a car
-- between floors stops at a timeout at the next floor, which becomes its destination.
handle-EmergencyRound :
    (env : Env) (ret : Ret) (e : Elevator)
    → e.shm.emergency_mode ≡ 1
    → EmergencyRound ret e (handle env ret e)
handle-EmergencyRound env signalled e h =
    rw (handle-emergency env signalled e h) (signalled-EmergencyRound env e)
handle-EmergencyRound env timed_out e h =
    rw (handle-emergency env timed_out e h) (timed_out-EmergencyRound env e)
handle-EmergencyRound env failed e h =
    rw (handle-emergency env failed e h) (failed-EmergencyRound env e)
