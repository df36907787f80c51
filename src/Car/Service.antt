-- ===== src/Car/Service.antt =====
-- assignment2/car.c, `elevator_loop`: the branch for `individual_service_mode == 1`.
use cab403work.Base.{◌==◌, if◌then◌else◌}
use cab403work.Shared.Memory.{opening, opened, closing, closed, between}
use cab403work.Car.Elevator.{
  Env, Elevator, ◌▷◌, calculate_absolute_timeout, notify_status_change, broadcast, set_status,
  clear_open, clear_close, status_is, elsewhere,
}
use cab403work.Car.Emergency.{finish_move, finish_opening, finish_closing, stay_open}

module _ (env : Env) where
  unfoldable pub service_signalled : Elevator → Elevator
  service_signalled e =
      if e.shm.close_button == 1
      then (if status_is e opened
          then e
            ▷ clear_close
            ▷ calculate_absolute_timeout env
            ▷ set_status closing
            ▷ notify_status_change
            ▷ broadcast
          else e ▷ clear_close)
      else if e.shm.open_button == 1
      then (if status_is e closed
          then e
            ▷ clear_open
            ▷ calculate_absolute_timeout env
            ▷ set_status opening
            ▷ notify_status_change
            ▷ broadcast
          else if status_is e closing
          then e
            ▷ clear_open
            ▷ calculate_absolute_timeout env
            ▷ set_status opening
            ▷ notify_status_change
            ▷ broadcast
          else e ▷ clear_open)
      else if elsewhere e
      then (if status_is e closed
          then e ▷ calculate_absolute_timeout env ▷ set_status between ▷ notify_status_change
          else e)
      else e

  unfoldable pub service_timed_out : Elevator → Elevator
  unfolding finish_move finish_opening finish_closing stay_open
  service_timed_out e =
      if status_is e between
      then finish_move env e
      else if status_is e opening
      then finish_opening env e
      else if status_is e closing
      then finish_closing env e
      else if status_is e opened
      then stay_open env e
      else if status_is e closed
      then (if e.shm.open_button == 1
          then e ▷ clear_close ▷ clear_open ▷ set_status opening ▷ notify_status_change ▷ broadcast
          else if elsewhere e
          then e ▷ clear_close ▷ set_status between ▷ notify_status_change
          else e ▷ clear_close)
        ▷ calculate_absolute_timeout env
      else e
