-- ===== src/Controller/Connections.antt =====
-- assignment2/controller.c: the threads of the connections, `handle_connection`,
-- `handle_call_connection` and `handle_car_connection`.
pub mod Updates
use cab403work.Base.{
  ℕ, Bool, true, false, not, ◌&&◌, List, [], ◌∷◌, ◌++◌, ◌==◌, if◌then◌else◌, Option, none, some,
  take,
}
use cab403work.Base.Text.{Bytes, codes}
use cab403work.Libc.{streq, starts_with, truncated}
use cab403work.Shared.Memory.{opening}
use cab403work.Controller.State.{FloorNode, Car, Call, Message, Controller}
use cab403work.Controller.Queue.{floor_message}
use cab403work.Controller.Dispatch.{append_call, write_back, find_car}
use cab403work.Controller.Messages.{scan_call, scan_car, scan_status}

abbrev pub close : ℕ → Controller → Controller
close fd c = record c { closed = c.closed ++ fd ∷ [] }

-- A call joins the queue; a message that is no call closes its connection.
unfoldable pub handle_call_connection : ℕ → Bytes → Controller → Controller
unfolding append_call scan_call
handle_call_connection conn_fd initial_message c = elim (scan_call initial_message) [
  | none ↦ close conn_fd c
  | some (current_floor, destination_floor) ↦
      append_call
        (record {
          current_floor = current_floor;
          destination_floor = destination_floor;
          fd = conn_fd;
        })
        c
]

-- The new node of the car list.
unfoldable pub new_car : ℕ → Bytes × Bytes × Bytes → Bytes × Bytes × Bytes → Car
new_car conn_fd (name, lowest_floor, highest_floor) (status, current_floor, destination_floor) =
    record {
      fd = conn_fd;
      name = truncated 256 name;
      lowest_floor = truncated 4 lowest_floor;
      highest_floor = truncated 4 highest_floor;
      current_floor = truncated 4 current_floor;
      destination_floor = truncated 4 destination_floor;
      status = truncated 8 status;
      floor_queue = [];
    }

-- The head of `handle_car_connection`: the greeting and the first status, NULL for a connection
-- that ends; the car goes to the head of the list.
unfoldable pub register_car : ℕ → Bytes → Option Bytes → Controller → Controller
unfolding scan_car scan_status new_car
register_car conn_fd initial_message status_update c = elim (scan_car initial_message) [
  | none ↦ close conn_fd c
  | some greeting ↦ elim status_update [
    | none ↦ close conn_fd c
    | some text ↦ elim (scan_status text) [
      | none ↦ close conn_fd c
      | some status ↦ record c { cars = new_car conn_fd greeting status ∷ c.cars }
    ]
  ]
]

-- The stops that are done with: the head, and the next one if it is on the same floor.
abbrev pub drop_repeat : Bytes → List FloorNode → List FloorNode
drop_repeat current_floor [] = []
drop_repeat current_floor (node ∷ queue) =
    if streq node.floor current_floor then queue else node ∷ queue

unfoldable pub complete_floor : Bytes → List FloorNode → List FloorNode
complete_floor current_floor [] = []
complete_floor current_floor (node ∷ queue) =
    if streq node.floor current_floor then drop_repeat current_floor queue else node ∷ queue

-- The next stop is sent if the head was done with.
abbrev pub next_stop : ℕ → List FloorNode → List Message
next_stop fd [] = []
next_stop fd (node ∷ queue) = record { to = fd; text = floor_message node.floor } ∷ []

abbrev pub head_done : Bytes → List FloorNode → Bool
head_done current_floor [] = false
head_done current_floor (node ∷ queue) = streq node.floor current_floor

-- A status update: the car's data, and its queue when the doors open at the destination.
unfoldable pub update_car : Bytes × Bytes × Bytes → Car → Car × List Message
unfolding complete_floor
update_car (status, current_floor, destination_floor) old =
    let car = record old {
      status = truncated 8 status;
      current_floor = truncated 4 current_floor;
      destination_floor = truncated 4 destination_floor;
    } in
    if streq car.status opening
      && streq car.current_floor car.destination_floor
      && head_done car.current_floor car.floor_queue
    then (
      record car { floor_queue = complete_floor car.current_floor car.floor_queue },
      next_stop car.fd (complete_floor car.current_floor car.floor_queue),
    )
    else (car, [])

-- The car leaves the list: `indirect` walks to its node.
unfoldable pub remove_car : ℕ → List Car → List Car
remove_car fd [] = []
remove_car fd (car ∷ cars) = if car.fd == fd then cars else car ∷ remove_car fd cars

-- The update of the car behind the thread's own pointer.
abbrev pub store_update : Bytes × Bytes × Bytes → Option Car → Controller → Controller
store_update status none c = c
store_update status (some car) c =
    let (car', told) = update_car status car in
    record c { cars = write_back car' c.cars; messages = c.messages ++ told }

-- One round of the loop of `handle_car_connection`: the state, `connected`, and whether the loop
-- goes on. The text is what `receive_msg` returns.
unfoldable pub status_round : ℕ → Option Bytes → Bool → Controller → Controller × Bool × Bool
unfolding scan_status update_car find_car write_back
status_round fd status_update false c = (c, false, false)
status_round fd none true c = (close fd c, false, false)
status_round fd (some text) true c = elim (scan_status text) [
  | none ↦ (c, true, false)
  | some status ↦ (store_update status (find_car fd c.cars) c, true, true)
]

-- The two critical sections behind the loop: the car leaves the list, and the connection is closed
-- if it is not yet.
abbrev pub leave_list : ℕ → Controller → Controller
leave_list fd c = record c { cars = remove_car fd c.cars }

abbrev pub close_last : ℕ → Bool → Controller → Controller
close_last fd connected c = if connected then close fd c else c

-- Both, with no other thread in between.
unfoldable pub end_connection : ℕ → Bool → Controller → Controller
unfolding remove_car
end_connection fd connected c = close_last fd connected (leave_list fd c)

-- The loop over the texts that arrive, with no other thread between its critical sections; with no
-- text left the thread waits.
unfoldable pub car_connection : ℕ → List (Option Bytes) → Bool → Controller → Controller
car_connection fd [] connected c = c
car_connection fd (text ∷ texts) connected c =
    let r = status_round fd text connected c in
    let rest = car_connection fd texts r.1 r.0 in if r.2 then rest else end_connection fd r.1 r.0

-- What `handle_connection` does with the first message.
pub data Kind : Type 0 where
  call car other : Kind

unfoldable pub connection_kind : Bytes → Kind
unfolding starts_with
connection_kind initial_message =
    if starts_with initial_message (codes "CALL")
    then call
    else if starts_with initial_message (codes "CAR")
    then car
    else other
