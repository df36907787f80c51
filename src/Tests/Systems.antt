-- ===== src/Tests/Systems.antt =====
-- The programs of assignment2 with each other, on examples.
use cab403work.Base.{◌≡◌, refl, arith, true, [], ◌∷◌, none, some, ◌++◌}
use cab403work.Base.Text.{Bytes, codes}
use cab403work.Libc.{streq, atoi, print_ℤ}
use cab403work.Shared.Floors.{validate_floor_input}
use cab403work.Libc.Words.{IsWord}
use cab403work.Shared.Memory.{SharedMem, closed, between}
use cab403work.Car.Attempts.{greeted}
use cab403work.Car.Connection.{poll_timeout, events, link_round, status_message}
use cab403work.Call.{request, send}
use cab403work.Controller.State.{floor_number, Car, Controller}
use cab403work.Controller.Dispatch.{serve_call}
use cab403work.Controller.Connections.{
  Kind, register_car, handle_call_connection, connection_kind, car_connection,
}
use cab403work.System.Served.{known_car, register_car-greeted}
use cab403work.System.Called.{call_from, answered, call_comes_to_car}
use cab403work.Car.Elevator.{Elevator}
use cab403work.Car.Loop.Travel.{timeouts, HasArrived}
use cab403work.Car.Floors.{floor_str_to_int, floor_int_to_str}
use cab403work.System.{with_memory}
use cab403work.System.Trip.{call_is_served}
use cab403work.Controller.Queue.{floor_message}
use cab403work.System.Stops.{opened_at}
use cab403work.Tests.Given.{
  alpha, one_car, differs, sent_up, on_its_way, at_rest, link_with, half_second, elevator_with,
}

abbrev free_alpha : Car
free_alpha = record alpha { floor_queue = [] }

abbrev one_free : Controller
one_free = record one_car { cars = free_alpha ∷ []; calls = [] }

letter_1 : IsWord 3 (codes "1")
letter_1 = ((refl, tt), omega arith, omega arith)

letter_3 : IsWord 3 (codes "3")
letter_3 = ((refl, tt), omega arith, omega arith)

Alpha-IsWord : IsWord 99 (codes "Alpha")
Alpha-IsWord = ((refl, (refl, (refl, (refl, (refl, tt))))), omega arith, omega arith)

register_car-greeted_example :
    (initial_message status_update : Bytes) × ((greeted
        (codes "Alpha")
        (codes "1")
        (codes "3")
        sent_up
        []).sent
      ≡ initial_message ∷ status_update ∷ [])
    × (connection_kind initial_message ≡ Kind.car)
    × (register_car 8 initial_message (some status_update) one_car ≡ record one_car {
      cars = known_car 8 (codes "Alpha") (codes "1") (codes "3") sent_up ∷ alpha ∷ [];
    })
register_car-greeted_example =
    register_car-greeted (codes "Alpha") (codes "1") (codes "3") [] sent_up 8 one_car Alpha-IsWord
      letter_1 letter_3
      ((refl, (refl, (refl, (refl, (refl, (refl, tt)))))), omega arith, omega arith) letter_1
      letter_3

call_comes_to_car_example :
    (text order : Bytes) × (request (codes "3" ∷ codes "1" ∷ []) ≡ send text)
    × (connection_kind text ≡ Kind.call)
    × (serve_call (handle_call_connection 9 text one_free)
        ≡ answered order [] [] free_alpha (call_from (codes "3") (codes "1") 9) one_free)
    × (let l' =
          link_round true (events (some (some order)) none) on_its_way (link_with on_its_way []) in
        (link_round true poll_timeout at_rest (record l' { memory = at_rest })).memory ≡ sent_up)
unfolding floor_number atoi streq validate_floor_input
call_comes_to_car_example =
    call_comes_to_car (codes "3") (codes "1") 9 free_alpha [] [] one_free on_its_way at_rest at_rest
      poll_timeout (link_with on_its_way []) refl refl (differs (codes "3") (codes "1") refl)
      letter_3 letter_1 refl refl tt tt (ground arith) refl (ground arith) (ground arith)
      (differs closed between refl)

-- The order for floor 1, read and then delivered to the car at floor 3.
abbrev delivered : SharedMem → SharedMem
delivered m =
    let l' =
      link_round true (events (some (some (floor_message (codes "1")))) none) on_its_way
        (link_with on_its_way []) in
    (link_round true poll_timeout at_rest (record l' { memory = m })).memory

abbrev at_3 : Elevator
at_3 = timeouts half_second 3 (elevator_with sent_up)

abbrev at_1 : Elevator
at_1 = timeouts half_second 5 (with_memory (delivered at_3.shm) at_3)

call_is_served_example :
    let c' =
      answered (codes "FLOOR 3") [] [] free_alpha (call_from (codes "3") (codes "1") 9) one_free in
    HasArrived (codes "3") at_3.shm
    × HasArrived (codes "1") at_1.shm
    × (car_connection 5
          (some (status_message at_3.shm) ∷ some (status_message at_1.shm) ∷ [])
          true
          c'
        ≡ record c' {
          cars = opened_at (codes "1") [] free_alpha ∷ [];
          messages = c'.messages ++ record { to = 5; text = floor_message (codes "1") } ∷ [];
        })
unfolding floor_str_to_int floor_int_to_str atoi print_ℤ
call_is_served_example =
    call_is_served half_second 1 1 (elevator_with sent_up) (codes "FLOOR 3") (codes "3") (codes "1")
      9 free_alpha [] [] one_free on_its_way at_rest poll_timeout (link_with on_its_way [])
      (record { calm = refl; normal = refl; no_open = refl; no_close = refl }) refl refl
      (ground arith) (refl, ground arith) (refl, ground arith) letter_3 letter_1 refl refl
      (ground arith) (ground arith) tt
