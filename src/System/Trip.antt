-- ===== src/System/Trip.antt =====
-- assignment2: a car that has been called, from the order of the controller to the end of the trip.
use cab403work.Base.{
  ℕ, suc, ◌≡◌, ◌≢◌, sym, ap, ◌∙◌, true, List, [], ◌∷◌, ◌++◌, arith, some, none, subst,
}
use cab403work.Base.Int.{gap, pos_part, neg_part}
use cab403work.Base.Text.{Bytes, All}
use cab403work.Libc.Words.{IsWord}
use cab403work.Shared.Memory.{SharedMem, closed}
use cab403work.Car.Floors.{floor_str_to_int}
use cab403work.Car.Floors.Numbers.{IsFloorNumber}
use cab403work.Car.Elevator.{Env, Elevator}
use cab403work.Car.Loop.Travel.{timeouts, IsQuiet, IsFloorText, HasArrived, travel, travel_on}
use cab403work.Car.Connection.{Link, Polled, events, status_message, link_round}
use cab403work.Car.Connection.Orders.{order_arrives}
use cab403work.Controller.State.{Car, Controller}
use cab403work.Controller.Queue.{floor_message}
use cab403work.Controller.Connections.{car_connection}
use cab403work.System.{with_memory, opening≢between}
use cab403work.System.Called.{call_from, answered}
use cab403work.System.Stops.{opened_at, answered-car_connection}

gap_apart : (s t : Bytes) (n : ℕ) → gap (floor_str_to_int s) (floor_str_to_int t) ≡ suc n → s ≢ t
gap_apart s t n g e =
    let same = ap floor_str_to_int e in omega (arith, g, ap pos_part same, ap neg_part same)

-- The car stands at a floor with its doors opening and is sent on.
sent_on :
    (env : Env) (n : ℕ) (source destination : Bytes) (e : Elevator)
    → HasArrived source e.shm
    → IsFloorNumber (floor_str_to_int source)
    → IsFloorText destination
    → gap (floor_str_to_int source) (floor_str_to_int destination) ≡ suc n
    → let e' = with_memory (record e.shm { destination_floor = destination }) e in
      HasArrived destination (timeouts env (suc (suc (suc (suc n)))) e').shm
sent_on env n source destination e h on target away =
    let e' = with_memory (record e.shm { destination_floor = destination }) e in
    travel_on env n e'
      (record {
        calm = h.quiet.calm;
        normal = h.quiet.normal;
        no_open = h.quiet.no_open;
        no_close = h.quiet.no_close;
      })
      h.doors (rw h.at on) target (rw h.at away)

-- A closed car in normal mode with no button pressed, whose memory has the floor of the caller for
-- its destination, all floors from B99 to 999 and the two of the call as the program writes them,
-- words of at most three bytes: it opens at the floor of the caller after as many timeouts as there
-- are floors and one more; when its connection, in neither mode, has then read the order for the
-- destination of the call, it opens there after as many timeouts as there are floors and three
-- more; and the two statuses that it sends with its doors opening make the controller give this
-- order and leave the car with no stop.
pub call_is_served :
    (env : Env) (n n' : ℕ) (e : Elevator) (order source destination : Bytes) (fd : ℕ) (a : Car)
    (before behind : List Car) (c : Controller) (now now' : SharedMem) (p : Polled) (l : Link)
    → IsQuiet e.shm
    → e.shm.status ≡ closed
    → e.shm.destination_floor ≡ source
    → IsFloorNumber (floor_str_to_int e.shm.current_floor)
    → IsFloorText source
    → IsFloorText destination
    → IsWord 3 source
    → IsWord 3 destination
    → gap (floor_str_to_int e.shm.current_floor) (floor_str_to_int source) ≡ suc n
    → gap (floor_str_to_int source) (floor_str_to_int destination) ≡ suc n'
    → l.memory.emergency_mode ≢ 1
    → l.memory.individual_service_mode ≢ 1
    → All (λ b. b.fd ≢ a.fd) before
    → let e₁ = timeouts env (suc (suc n)) e in
      let l' = link_round true (events (some (some (floor_message destination))) none) now l in
      let m = (link_round true p now' (record l' { memory = e₁.shm })).memory in
      let e₂ = timeouts env (suc (suc (suc (suc n')))) (with_memory m e₁) in
      let c' = answered order before behind a (call_from source destination fd) c in
      HasArrived source e₁.shm
      × HasArrived destination e₂.shm
      × (car_connection a.fd
            (some (status_message e₁.shm) ∷ some (status_message e₂.shm) ∷ [])
            true
            c'
          ≡ record c' {
            cars = before ++ opened_at destination [] a ∷ behind;
            messages = c'.messages ++ record { to = a.fd; text = floor_message destination } ∷ [];
          })
call_is_served env n n' e order source destination fd a before behind c now now' p l q shut to on s
      d ws wd away away' em ser apart =
    let e₁ = timeouts env (suc (suc n)) e in
    let first : HasArrived source e₁.shm =
      subst (λ f. HasArrived f e₁.shm) to (travel env n e q shut on (rw to s) (rw to away)) in
    let read =
      order_arrives destination now now' e₁.shm p l wd em ser
        (λ b. opening≢between (sym first.doors ∙ b)) in
    let second = sent_on env n' source destination e₁ first s.1 d away' in
    let there =
      subst
        (λ m.
          HasArrived destination (timeouts env (suc (suc (suc (suc n')))) (with_memory m e₁)).shm)
        (sym read) second in
    (
      first,
      there,
      answered-car_connection order source destination fd a before behind c e₁.shm _
          (gap_apart source destination n' away') ws wd apart (first.doors, first.at, first.to)
          (there.doors, there.at, there.to),
    )
