-- ===== src/System/Stops.antt =====
-- assignment2: the statuses that a car sends as its doors open, and the next orders of the
-- controller.
use cab403work.Base.{
  ℕ, ◌≡◌, ◌≢◌, refl, sym, ap, ◌∙◌, true, List, [], ◌∷◌, ◌++◌, append-nil, arith, take-all, some,
}
use cab403work.Base.Text.{Bytes, All}
use cab403work.Libc.{streq_refl, streq_ne}
use cab403work.Libc.Words.{IsWord}
use cab403work.Shared.Memory.{SharedMem, opening}
use cab403work.Car.Connection.{status_message}
use cab403work.Controller.State.{FloorNode, Car, Controller}
use cab403work.Controller.Queue.{floor_message, stop}
use cab403work.Controller.Dispatch.{find_car, call_direction}
use cab403work.Controller.Messages.{scan_status}
use cab403work.Controller.Messages.RoundTrip.{scan_status-status_message}
use cab403work.Controller.Connections.{
  update_car, complete_floor, drop_repeat, next_stop, status_round, car_connection,
}
use cab403work.System.Called.{call_from, answered, write_back-at}

-- The doors open at the floor, which is the destination.
abbrev pub OpensAt : SharedMem → Bytes → Type 0
OpensAt m floor = (m.status ≡ opening) × (m.current_floor ≡ floor) × (m.destination_floor ≡ floor)

-- The car as it opens at the floor, with these stops left.
abbrev pub opened_at : Bytes → List FloorNode → Car → Car
opened_at floor queue a = record a {
  status = opening;
  current_floor = floor;
  destination_floor = floor;
  floor_queue = queue;
}

find_car-at :
    (before behind : List Car) (a : Car)
    → All (λ c. c.fd ≢ a.fd) before
    → find_car a.fd (before ++ a ∷ behind) ≡ some a
unfolding find_car
find_car-at [] behind a n = ground arith
find_car-at (c ∷ before) behind a n = ground (arith, find_car-at before behind a)

update_car-opened :
    (a : Car) (node : FloorNode) (queue : List FloorNode)
    → a.floor_queue ≡ node ∷ queue
    → IsWord 3 node.floor
    → let left = drop_repeat node.floor queue in
      update_car (opening, node.floor, node.floor) a
      ≡ (opened_at node.floor left a, next_stop a.fd left)
unfolding update_car complete_floor
update_car-opened a node queue e w =
    rw (e, take-all 3 node.floor w.2, streq_refl node.floor, streq_refl opening)

opening-IsWord : IsWord 7 opening
opening-IsWord =
    ((refl, (refl, (refl, (refl, (refl, (refl, (refl, tt))))))), omega arith, omega arith)

status_read :
    (m : SharedMem) (floor : Bytes)
    → OpensAt m floor
    → IsWord 3 floor
    → scan_status (status_message m) ≡ some (opening, floor, floor)
status_read m floor (s, f, d) w =
    scan_status-status_message m (rw s opening-IsWord) (rw f w) (rw d w) ∙ rw (s, f, d)

-- A car that opens at its first stop: the stop is done with, and the car is told of the next one.
status_round-opened :
    (text : Bytes) (a : Car) (node : FloorNode) (queue : List FloorNode) (before behind : List Car)
    (c : Controller)
    → scan_status text ≡ some (opening, node.floor, node.floor)
    → IsWord 3 node.floor
    → a.floor_queue ≡ node ∷ queue
    → All (λ b. b.fd ≢ a.fd) before
    → c.cars ≡ before ++ a ∷ behind
    → let left = drop_repeat node.floor queue in
      status_round a.fd (some text) true c ≡ (
        record c {
          cars = before ++ opened_at node.floor left a ∷ behind;
          messages = c.messages ++ next_stop a.fd left;
        },
        true,
        true,
      )
unfolding status_round
status_round-opened text a node queue before behind c read w e n l =
    rw (read, l, find_car-at before behind a n)
      (rw (
        update_car-opened a node queue e w,
        write_back-at before behind a (opened_at node.floor (drop_repeat node.floor queue) a) n
            refl,
      ))

-- The controller's car behind `call_comes_to_car`: the statuses with the doors opening first at the
-- floor of the caller and then at the destination make the controller send the car on to the
-- destination and then leave it with no stop and no further order.
pub answered-car_connection :
    (order source destination : Bytes) (fd : ℕ) (a : Car) (before behind : List Car)
    (c : Controller) (m m' : SharedMem)
    → source ≢ destination
    → IsWord 3 source
    → IsWord 3 destination
    → All (λ b. b.fd ≢ a.fd) before
    → OpensAt m source
    → OpensAt m' destination
    → let c' = answered order before behind a (call_from source destination fd) c in
      car_connection a.fd (some (status_message m) ∷ some (status_message m') ∷ []) true c'
      ≡ record c' {
        cars = before ++ opened_at destination [] a ∷ behind;
        messages = c'.messages ++ record { to = a.fd; text = floor_message destination } ∷ [];
      }
unfolding car_connection
answered-car_connection order source destination fd a before behind c m m' x s d n o o' =
    let d' = call_direction (call_from source destination fd) in
    let from_node = stop d' source in
    let to_node = stop d' destination in
    let c' = answered order before behind a (call_from source destination fd) c in
    let a' : Car = record a { floor_queue = from_node ∷ to_node ∷ [] } in
    let first =
      status_round-opened (status_message m) a' from_node (to_node ∷ []) before behind c'
        (status_read m source o s) s refl n refl in
    let sent_on = c'.messages ++ record { to = a.fd; text = floor_message destination } ∷ [] in
    let at_source = opened_at source (to_node ∷ []) a in
    let c'' = record c' { cars = before ++ at_source ∷ behind; messages = sent_on } in
    let second =
      status_round-opened (status_message m') at_source to_node [] before behind c''
        (status_read m' destination o' d) d refl n refl in
    rw (first, streq_ne destination source (λ e. x (sym e)))
      (rw second (
        ap
          (λ told. record c' {
            cars = before ++ opened_at destination [] a ∷ behind;
            messages = told;
          })
          (append-nil sent_on)))
