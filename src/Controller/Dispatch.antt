-- ===== src/Controller/Dispatch.antt =====
-- assignment2/controller.c: `can_access_floors`, `select_best_car`, one round of
-- `elevator_control_loop`, and the call that a connection appends.
pub mod Selection
pub mod Order
pub mod Rounds
use cab403work.Base.{
  ℕ, Bool, true, false, ◌&&◌, List, [], ◌∷◌, ◌++◌, ◌==◌, if◌then◌else◌, Option, none, some,
}
use cab403work.Base.Int.{ℤ, leb_ℤ, ltb_ℤ}
use cab403work.Base.Text.{Bytes, codes}
use cab403work.Libc.{truncated}
use cab403work.Controller.State.{
  Direction, up, down, FloorNode, Car, Call, Message, Controller, floor_number,
}
use cab403work.Controller.Queue.{insert_floors_into_queue}

unfoldable pub can_access_floors : Car → Bytes → Bytes → Bool
can_access_floors car current destination =
    leb_ℤ (floor_number car.lowest_floor) (floor_number current)
    && leb_ℤ (floor_number current) (floor_number car.highest_floor)
    && leb_ℤ (floor_number car.lowest_floor) (floor_number destination)
    && leb_ℤ (floor_number destination) (floor_number car.highest_floor)

-- The first car of the list that reaches both floors. (Both mutexes are held around the tests.)
unfoldable pub select_best_car : Call → List Car → Option Car
select_best_car call [] = none
select_best_car call (car ∷ cars) =
    let rest = select_best_car call cars in
    if can_access_floors car call.current_floor call.destination_floor then some car else rest

-- The car behind the pointer is written back to the list: it is the first with its descriptor.
unfoldable pub write_back : Car → List Car → List Car
write_back car [] = []
write_back car (c ∷ cars) = if c.fd == car.fd then car ∷ cars else c ∷ write_back car cars

unfoldable pub find_car : ℕ → List Car → Option Car
find_car fd [] = none
find_car fd (car ∷ cars) = let rest = find_car fd cars in if car.fd == fd then some car else rest

abbrev pub call_direction : Call → Direction
call_direction call =
    if ltb_ℤ (floor_number call.current_floor) (floor_number call.destination_floor)
    then up
    else down

-- The answer to a call, and the end of its connection.
abbrev pub answer : Call → Bytes → Controller → Controller
answer call text c = record c {
  messages = c.messages ++ record { to = call.fd; text = text } ∷ [];
  closed = c.closed ++ call.fd ∷ [];
}

-- The stops go into the queue of the car, and the car may be told of its new first stop.
abbrev pub send_car : Car → Call → Controller → Controller
send_car car call c =
    let (car', told) = insert_floors_into_queue car call (call_direction call) in
    record c { cars = write_back car' c.cars; messages = c.messages ++ told }

-- "CAR <name>" in a buffer of 260 bytes, or "UNAVAILABLE".
abbrev pub respond : Option Car → Call → Controller → Controller
respond none call c = answer call (codes "UNAVAILABLE") c
respond (some car) call c =
    answer call (truncated 260 (codes "CAR " ++ car.name)) (send_car car call c)

abbrev pub serve_head : List Call → Controller → Controller
serve_head [] c = c
serve_head (call ∷ calls) c =
    respond (select_best_car call c.cars) call (record c { calls = calls })

-- One round that no other thread comes into: the oldest call. With no call the loop waits, and the
-- state is kept.
unfoldable pub serve_call : Controller → Controller
serve_call c = serve_head c.calls c

-- Where the loop stands: with no call, behind the section that takes the oldest call, behind
-- `select_best_car`, and behind the insertion. A pointer to a car is the car as it was chosen, of
-- which the descriptor and the name never change.
pub data Turn : Type 0 where
  free : Turn
  taken : Call → Turn
  chosen : Call → Option Car → Turn
  inserted : Call → Car → Turn

pub record Loop : Type 0 where
  pub turn : Turn
  pub controller : Controller

abbrev pub take_call : List Call → Controller → Loop
take_call [] c = record { turn = free; controller = c }
take_call (call ∷ calls) c = record { turn = taken call; controller = record c { calls = calls } }

-- The insertion, into the queue as it is now. A car that has left the list meanwhile is memory that
-- has been freed; here nothing is done with it.
abbrev pub insert_now : Option Car → Call → Controller → Controller
insert_now none call c = c
insert_now (some car) call c = send_car car call c

-- The loop from one critical section to the next.
unfoldable pub control_step : Turn → Controller → Loop
unfolding select_best_car find_car
control_step free c = take_call c.calls c
control_step (taken call) c = record {
  turn = chosen call (select_best_car call c.cars);
  controller = c;
}
control_step (chosen call none) c = record {
  turn = free;
  controller = answer call (codes "UNAVAILABLE") c;
}
control_step (chosen call (some car)) c = record {
  turn = inserted call car;
  controller = insert_now (find_car car.fd c.cars) call c;
}
control_step (inserted call car) c = record {
  turn = free;
  controller = answer call (truncated 260 (codes "CAR " ++ car.name)) c;
}

-- The tail of `handle_call_connection`: the new node behind the last.
unfoldable pub append_call : Call → Controller → Controller
append_call call c = record c { calls = c.calls ++ call ∷ [] }
