-- ===== src/Car/Emergency.antt =====
-- assignment2/car.c, `elevator_loop`: the branch for `emergency_mode == 1`.
use cab403work.Base.{◌==◌, if◌then◌else◌}
use cab403work.Shared.Memory.{opening, opened, closing, closed, between}
use cab403work.Car.Floors.{move_floor}
use cab403work.Car.Elevator.{
  Env, Elevator, ◌▷◌, calculate_absolute_timeout, notify_status_change, broadcast, set_status,
  set_current, set_destination, clear_open, clear_close, status_is,
}

module _ (env : Env) where
  -- The wait ended by a broadcast.
  unfoldable pub emergency_signalled : Elevator → Elevator
  emergency_signalled e =
      if e.shm.close_button == 1
      then (if status_is e opened
          then e
            ▷ clear_close
            ▷ calculate_absolute_timeout env
            ▷ set_status closing
            ▷ notify_status_change
            ▷ broadcast
          else e ▷ clear_close)
      else if e.shm.open_button == 1
      then (if status_is e closed
          then e
            ▷ clear_open
            ▷ calculate_absolute_timeout env
            ▷ set_status opening
            ▷ notify_status_change
            ▷ broadcast
          else if status_is e closing
          then e
            ▷ clear_open
            ▷ calculate_absolute_timeout env
            ▷ set_status opening
            ▷ notify_status_change
            ▷ broadcast
          else e ▷ clear_open)
      else e

  -- A car between two floors ends its move, and opens if the button was pressed on the way. The
  -- code is the same in emergency mode and in individual service mode.
  unfoldable pub finish_move : Elevator → Elevator
  finish_move e =
      let arrived =
        e
        ▷ set_current (move_floor e.shm.current_floor e.shm.destination_floor)
        ▷ set_destination (move_floor e.shm.current_floor e.shm.destination_floor)
        ▷ set_status closed
        ▷ notify_status_change in
      (if arrived.shm.open_button == 1
        then arrived ▷ set_status opening ▷ notify_status_change
        else arrived)
      ▷ calculate_absolute_timeout env
      ▷ clear_open
      ▷ clear_close
      ▷ broadcast

  -- The ends of `Opening` and `Closing`, the same in both modes too.
  unfoldable pub finish_opening : Elevator → Elevator
  finish_opening e =
      (if e.shm.close_button == 1
        then e ▷ clear_open ▷ set_status closing ▷ clear_close
        else e ▷ clear_open ▷ set_status opened)
      ▷ calculate_absolute_timeout env
      ▷ notify_status_change
      ▷ broadcast

  unfoldable pub finish_closing : Elevator → Elevator
  finish_closing e =
      (if e.shm.open_button == 1
        then e ▷ clear_close ▷ set_status opening ▷ clear_open
        else e ▷ clear_close ▷ set_status closed)
      ▷ calculate_absolute_timeout env
      ▷ notify_status_change
      ▷ broadcast

  unfoldable pub stay_open : Elevator → Elevator
  stay_open e =
      (if e.shm.close_button == 1
        then e ▷ clear_open ▷ clear_close ▷ set_status closing ▷ notify_status_change ▷ broadcast
        else e ▷ clear_open)
      ▷ calculate_absolute_timeout env

  -- The delay passed.
  unfoldable pub emergency_timed_out : Elevator → Elevator
  unfolding finish_move finish_opening finish_closing stay_open
  emergency_timed_out e =
      if status_is e between
      then finish_move e
      else if status_is e opening
      then finish_opening e
      else if status_is e closing
      then finish_closing e
      else if status_is e opened
      then stay_open e
      else if status_is e closed
      then (if e.shm.open_button == 1
          then e ▷ clear_close ▷ clear_open ▷ set_status opening ▷ notify_status_change ▷ broadcast
          else e ▷ clear_close)
        ▷ calculate_absolute_timeout env
      else e
