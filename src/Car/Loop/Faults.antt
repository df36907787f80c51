-- ===== src/Car/Loop/Faults.antt =====
-- Behaviour of assignment2/car.c, `elevator_loop`, that its comments do not promise.
use cab403work.Base.{ℕ, zero, suc, ◌+◌, ◌≡◌, ◌≢◌, refl, sym, ◌∙◌, subst, false, arith}
use cab403work.Base.Int.{≤→ltb_ℤ}
use cab403work.Base.Text.{Bytes}
use cab403work.Libc.{streq, streq_iff}
use cab403work.Shared.Memory.{SharedMem, closed, between}
use cab403work.Car.Floors.{floor_str_to_int, move_floor}
use cab403work.Car.Elevator.{Env, Elevator}
use cab403work.Car.Normal.{normal_timed_out}
use cab403work.Car.Loop.{timed_out, handle}
use cab403work.Car.Loop.Travel.{timeouts, IsQuiet}

move_floor-same :
    (current destination : Bytes)
    → floor_str_to_int current ≡ floor_str_to_int destination
    → move_floor current destination ≡ current
unfolding move_floor
move_floor-same current destination h =
    rw (h, ≤→ltb_ℤ (floor_str_to_int destination) (floor_str_to_int destination) (omega arith))

-- A car between two floors whose destination is its own floor under another text, such as "01"
-- for "1".
pub record IsStuck (m : SharedMem) : Type 0 where
  pub quiet : IsQuiet m
  pub here : m.status ≡ between
  pub same_number : floor_str_to_int m.current_floor ≡ floor_str_to_int m.destination_floor
  pub other_text : streq m.current_floor m.destination_floor ≡ false

stuck_step : (env : Env) (e : Elevator) → IsStuck e.shm → (handle env timed_out e).shm ≡ e.shm
unfolding handle normal_timed_out
stuck_step env e s = ground (
  arith,
  streq_iff e.shm.status between,
  move_floor-same e.shm.current_floor e.shm.destination_floor s.same_number,
  s.here,
)

-- A car in normal mode with no button pressed that is between floors, on the floor of its
-- destination under another text such as "1" for "01", keeps its memory through any number of
-- timeouts: it never arrives.
pub stuck_forever :
    (env : Env) (n : ℕ) (e : Elevator) → IsStuck e.shm → (timeouts env n e).shm ≡ e.shm
unfolding timeouts
stuck_forever env zero e s = refl
stuck_forever env (suc n) e s =
    let step = stuck_step env e s in
    stuck_forever env n (handle env timed_out e) (subst IsStuck (sym step) s) ∙ step

-- For a closed car in normal mode with no button pressed at its destination, a timeout changes
-- nothing, not even the deadline, so that the next wait times out at once.
idle_keeps_deadline :
    (env : Env) (e : Elevator)
    → IsQuiet e.shm
    → e.shm.status ≡ closed
    → e.shm.current_floor ≡ e.shm.destination_floor
    → handle env timed_out e ≡ e
unfolding handle normal_timed_out streq
idle_keeps_deadline env e q c h = ground (
  arith,
  streq_iff e.shm.status closed,
  streq_iff e.shm.status between,
  streq_iff e.shm.current_floor e.shm.destination_floor,
)

-- A closed car in normal mode whose destination is another text than its floor and whose open
-- button is pressed departs at a timeout: the status is Between, the button is reset, and the
-- controller is told twice.
departs_while_opening :
    (env : Env) (e : Elevator)
    → e.shm.emergency_mode ≡ 0
    → e.shm.individual_service_mode ≡ 0
    → e.shm.status ≡ closed
    → e.shm.open_button ≡ 1
    → e.shm.current_floor ≢ e.shm.destination_floor
    → ((handle env timed_out e).shm ≡ record e.shm { status = between; open_button = 0 })
      × ((handle env timed_out e).notices ≡ e.notices + 2)
unfolding handle normal_timed_out streq
departs_while_opening env e m i c o h = ground (
  arith,
  streq_iff e.shm.status closed,
  streq_iff e.shm.status between,
  streq_iff e.shm.current_floor e.shm.destination_floor,
)
