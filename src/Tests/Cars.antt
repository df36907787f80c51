-- ===== src/Tests/Cars.antt =====
-- Runs of the loop of assignment2/car.c.
use cab403work.Base.{◌≡◌, refl, some, ◌+◌, ◌*◌, ◌<◌, arith}
use cab403work.Base.Text.{codes}
use cab403work.Libc.{streq, atoi}
use cab403work.Shared.Memory.{reset_to, closed, between}
use cab403work.Car.Clock.{absolute_timeout, absolute_timeout_exact, nanoseconds}
use cab403work.Car.Floors.{floor_str_to_int, floor_int_to_str}
use cab403work.Car.Loop.{handle, launched, start, timed_out, signalled}
use cab403work.Car.Loop.Status.{Follows, handle-Follows}
use cab403work.Car.Loop.Motion.{FloorChange, handle-FloorChange}
use cab403work.Car.Loop.Travel.{timeouts, HasArrived, travel}
use cab403work.Car.Loop.Faults.{stuck_forever}
use cab403work.System.{here, then, car, IsSound, start-IsSound}
use cab403work.Tests.Given.{half_second, seconds, memory_at, elevator_with, sent_up, on_its_way}

start-IsSound_example :
    (start half_second (codes "1") ≡ some (launched half_second (reset_to (codes "1"))))
    × IsSound (
        handle half_second timed_out
          (handle half_second signalled (launched half_second (reset_to (codes "1")))))
start-IsSound_example =
    start-IsSound half_second (codes "1") (ground arith)
      (then (then here (car signalled)) (car timed_out))

travel_example : HasArrived (codes "3") (timeouts half_second 3 (elevator_with sent_up)).shm
unfolding floor_str_to_int floor_int_to_str atoi cab403work.Libc.print_ℤ
travel_example =
    travel half_second 1 (elevator_with sent_up)
      (record { calm = refl; normal = refl; no_open = refl; no_close = refl }) refl (ground arith)
      (refl, ground arith) refl

handle-Follows_example :
    Follows closed (handle half_second timed_out (elevator_with sent_up)).shm.status
handle-Follows_example = handle-Follows half_second timed_out (elevator_with sent_up)

handle-FloorChange_example :
    FloorChange timed_out
      (elevator_with on_its_way)
      (handle half_second timed_out (elevator_with on_its_way))
handle-FloorChange_example = handle-FloorChange half_second timed_out (elevator_with on_its_way)

stuck_forever_example :
    (timeouts half_second 100 (elevator_with (memory_at (codes "1") (codes "01") between))).shm
    ≡ memory_at (codes "1") (codes "01") between
unfolding floor_str_to_int streq atoi
stuck_forever_example =
    stuck_forever half_second 100 (elevator_with (memory_at (codes "1") (codes "01") between))
      (record {
        quiet = record { calm = refl; normal = refl; no_open = refl; no_close = refl };
        here = refl;
        same_number = refl;
        other_text = refl;
      })

absolute_timeout_exact_example :
    ((absolute_timeout 500 (seconds 7)).tv_nsec < 1000000000)
    × (nanoseconds (absolute_timeout 500 (seconds 7)) ≡ nanoseconds (seconds 7) + 500 * 1000000)
absolute_timeout_exact_example = absolute_timeout_exact 500 (seconds 7) (ground arith)
