-- ===== src/Car/Normal.antt =====
-- assignment2/car.c, `elevator_loop`: the branch for the normal mode.
use cab403work.Base.{◌==◌, if◌then◌else◌}
use cab403work.Shared.Memory.{opening, opened, closing, closed, between}
use cab403work.Car.Floors.{move_floor}
use cab403work.Car.Elevator.{
  Env, Elevator, ◌▷◌, calculate_absolute_timeout, notify_status_change, broadcast, set_status,
  set_current, clear_open, clear_close, status_is, elsewhere,
}

module _ (env : Env) where
  unfoldable pub normal_signalled : Elevator → Elevator
  normal_signalled e =
      if e.shm.open_button == 1
      then (if status_is e closed
          then e
            ▷ clear_open
            ▷ calculate_absolute_timeout env
            ▷ set_status opening
            ▷ notify_status_change
            ▷ broadcast
          else if status_is e closing
          then e
            ▷ clear_open
            ▷ calculate_absolute_timeout env
            ▷ set_status opening
            ▷ notify_status_change
            ▷ broadcast
          else if status_is e opened
          then e ▷ clear_open ▷ calculate_absolute_timeout env
          else e ▷ clear_open)
      else if e.shm.close_button == 1
      then (if status_is e opened
          then e
            ▷ clear_close
            ▷ calculate_absolute_timeout env
            ▷ set_status closing
            ▷ notify_status_change
            ▷ broadcast
          else e ▷ clear_close)
      else if elsewhere e
      then (if status_is e closed
          then e
            ▷ calculate_absolute_timeout env
            ▷ set_status between
            ▷ notify_status_change
            ▷ broadcast
          else e)
      else (if status_is e closed
          then e
            ▷ calculate_absolute_timeout env
            ▷ set_status opening
            ▷ notify_status_change
            ▷ broadcast
          else e)

  -- The move ends: on towards the destination, or open.
  unfoldable pub normal_move : Elevator → Elevator
  normal_move e =
      let arrived =
        e
        ▷ set_current (move_floor e.shm.current_floor e.shm.destination_floor)
        ▷ set_status closed in
      (if elsewhere arrived then arrived ▷ set_status between else arrived ▷ set_status opening)
      ▷ calculate_absolute_timeout env
      ▷ notify_status_change
      ▷ broadcast

  -- Two tests in a row: after the first the second still runs.
  unfoldable pub normal_closed : Elevator → Elevator
  normal_closed e =
      let answered =
        if e.shm.open_button == 1
        then e
          ▷ clear_open
          ▷ calculate_absolute_timeout env
          ▷ set_status opening
          ▷ notify_status_change
          ▷ broadcast
        else e in
      if elsewhere answered
      then answered
        ▷ calculate_absolute_timeout env
        ▷ set_status between
        ▷ notify_status_change
        ▷ broadcast
      else answered

  unfoldable pub normal_opening : Elevator → Elevator
  normal_opening e =
      if e.shm.close_button == 1
      then e
        ▷ clear_close
        ▷ set_status closing
        ▷ calculate_absolute_timeout env
        ▷ notify_status_change
        ▷ broadcast
      else e ▷ set_status opened ▷ calculate_absolute_timeout env ▷ notify_status_change ▷ broadcast

  unfoldable pub normal_open : Elevator → Elevator
  normal_open e =
      if e.shm.open_button == 1
      then e ▷ clear_open ▷ calculate_absolute_timeout env
      else if e.shm.close_button == 1
      then e
        ▷ clear_close
        ▷ calculate_absolute_timeout env
        ▷ set_status closing
        ▷ notify_status_change
        ▷ broadcast
      else e
        ▷ calculate_absolute_timeout env
        ▷ set_status closing
        ▷ notify_status_change
        ▷ broadcast

  unfoldable pub normal_closing : Elevator → Elevator
  normal_closing e =
      if e.shm.open_button == 1
      then e
        ▷ clear_open
        ▷ set_status opening
        ▷ calculate_absolute_timeout env
        ▷ notify_status_change
        ▷ broadcast
      else (let shut =
            e ▷ set_status closed ▷ calculate_absolute_timeout env ▷ notify_status_change in
          (if elsewhere shut
            then shut
              ▷ set_status between
              ▷ notify_status_change
              ▷ calculate_absolute_timeout env
              ▷ broadcast
            else shut)
          ▷ broadcast)

  unfoldable pub normal_timed_out : Elevator → Elevator
  unfolding normal_move normal_closed normal_opening normal_open normal_closing
  normal_timed_out e =
      if status_is e between
      then normal_move e
      else if status_is e closed
      then normal_closed e
      else if status_is e opening
      then normal_opening e
      else if status_is e opened
      then normal_open e
      else if status_is e closing
      then normal_closing e
      else e
