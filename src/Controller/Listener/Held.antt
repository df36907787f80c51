-- ===== src/Controller/Listener/Held.antt =====
-- The descriptors that the lists of assignment2/controller.c hold, and what the handlers of its
-- threads do to them.
use mathlib.Core.Bool.{false≢true}
use cab403work.Base.{
  Bool, ℕ, ◌+◌, ◌<◌, ◌≤◌, ◌≡◌, refl, ap, true, List, [], ◌∷◌, ◌++◌, ◌==◌, ==_iff, if◌then◌else◌,
  arith, map, Option-cases, inl, inr, Option, none, some,
}
use cab403work.Base.Text.{Bytes}
use cab403work.Controller.State.{Car, Call, Controller}
use cab403work.Controller.Dispatch.{
  find_car, call_direction, write_back, insert_now, Turn, free, taken, chosen, inserted, take_call,
  control_step, append_call,
}
use cab403work.Controller.Dispatch.Order.{in_hand}
use cab403work.Controller.Queue.{insert_floors_into_queue}
use cab403work.Controller.Messages.{scan_call, scan_car, scan_status}
use cab403work.Controller.Connections.{
  close, handle_call_connection, register_car, new_car, Kind, connection_kind, remove_car,
  store_update, status_round,
}
use cab403work.Controller.Listener.{handle_kind, handle_connection}

abbrev pub occurrences : ℕ → List ℕ → ℕ
occurrences x [] = 0
occurrences x (y ∷ ys) = (if y == x then 1 else 0) + occurrences x ys

abbrev pub car_fds : List Car → List ℕ
car_fds = map (λ car. car.fd)

abbrev pub call_fds : List Call → List ℕ
call_fds = map (λ call. call.fd)

-- How often the controller holds the descriptor: in its cars, in its calls and among the closed.
abbrev pub held : ℕ → Controller → ℕ
held x c =
    occurrences x (car_fds c.cars) + occurrences x (call_fds c.calls) + occurrences x c.closed

pub occurrences-append :
    (x : ℕ) (xs ys : List ℕ) → occurrences x (xs ++ ys) ≡ occurrences x xs + occurrences x ys
occurrences-append x [] ys = omega arith
occurrences-append x (y ∷ xs) ys = omega (arith, occurrences-append x xs ys)

call_fds-append :
    (calls : List Call) (call : Call)
    → call_fds (calls ++ call ∷ []) ≡ call_fds calls ++ call.fd ∷ []
call_fds-append [] call = refl
call_fds-append (c ∷ calls) call = ap (λ l. c.fd ∷ l) (call_fds-append calls call)

car_fds-write_back : (a : Car) (cars : List Car) → car_fds (write_back a cars) ≡ car_fds cars
unfolding write_back
car_fds-write_back a [] = refl
car_fds-write_back a (c ∷ cars) = ground (arith, car_fds-write_back a cars, ==_iff c.fd a.fd)

-- A descriptor more.
abbrev pub Gains : ℕ → Controller → Controller → Type 0
Gains fd c c' = (x : ℕ) → held x c' ≡ held x c + occurrences x (fd ∷ [])

abbrev pub Keeps : Controller → Controller → Type 0
Keeps c c' = (x : ℕ) → held x c' ≡ held x c

pub close-Gains : (fd : ℕ) (c : Controller) → Gains fd c (close fd c)
close-Gains fd c x = omega (arith, occurrences-append x c.closed (fd ∷ []))

append_call-Gains : (call : Call) (c : Controller) → Gains call.fd c (append_call call c)
unfolding append_call
append_call-Gains call c x =
    rw (call_fds-append c.calls call)
      (omega (arith, occurrences-append x (call_fds c.calls) (call.fd ∷ [])))

handle_call_connection-Gains :
    (fd : ℕ) (text : Bytes) (c : Controller) → Gains fd c (handle_call_connection fd text c)
unfolding handle_call_connection
handle_call_connection-Gains fd text c = elim (Option-cases (scan_call text)) [
  | inl e ↦ rw e (close-Gains fd c)
  | inr ((current_floor, destination_floor), e) ↦ rw e (
      append_call-Gains
        (record { current_floor = current_floor; destination_floor = destination_floor; fd = fd })
        c)
]

register_car-Gains :
    (fd : ℕ) (text : Bytes) (status : Option Bytes) (c : Controller)
    → Gains fd c (register_car fd text status c)
unfolding register_car new_car
register_car-Gains fd text none c = elim (Option-cases (scan_car text)) [
  | inl e ↦ rw e (close-Gains fd c)
  | inr (hello, e) ↦ rw e (close-Gains fd c)
]
register_car-Gains fd text (some s) c = elim (Option-cases (scan_car text)) [
  | inl e ↦ rw e (close-Gains fd c)
  | inr (hello, e) ↦ elim (Option-cases (scan_status s)) [
    | inl e' ↦ rw (e, e') (close-Gains fd c)
    | inr (seen, e') ↦ rw (e, e') (λ x. omega arith)
  ]
]

pub handle_connection-Gains :
    (fd : ℕ) (text : Bytes) (status : Option Bytes) (c : Controller)
    → Gains fd c (handle_connection fd text status c)
unfolding handle_connection
handle_connection-Gains fd text status c = by_kind (connection_kind text)
  where
    by_kind : (k : Kind) → Gains fd c (handle_kind k fd text status c)
    by_kind Kind.call = handle_call_connection-Gains fd text c
    by_kind Kind.car = register_car-Gains fd text status c
    by_kind Kind.other = close-Gains fd c

-- The first messages of a connection take no car from the list.
register_car-cars :
    (fd : ℕ) (text : Bytes) (status : Option Bytes) (c : Controller) (x : ℕ)
    → occurrences x (car_fds c.cars) ≤ occurrences x (car_fds (register_car fd text status c).cars)
unfolding register_car new_car
register_car-cars fd text none c x = elim (Option-cases (scan_car text)) [
  | inl e ↦ rw e (omega arith)
  | inr (hello, e) ↦ rw e (omega arith)
]
register_car-cars fd text (some s) c x = elim (Option-cases (scan_car text)) [
  | inl e ↦ rw e (omega arith)
  | inr (hello, e) ↦ elim (Option-cases (scan_status s)) [
    | inl e' ↦ rw (e, e') (omega arith)
    | inr (seen, e') ↦ rw (e, e') (omega arith)
  ]
]

pub handle_connection-cars :
    (fd : ℕ) (text : Bytes) (status : Option Bytes) (c : Controller) (x : ℕ)
    → occurrences x (car_fds c.cars)
      ≤ occurrences x (car_fds (handle_connection fd text status c).cars)
unfolding handle_connection handle_call_connection append_call
handle_connection-cars fd text status c x = by_kind (connection_kind text)
  where
    by_kind :
        (k : Kind)
        → occurrences x (car_fds c.cars)
          ≤ occurrences x (car_fds (handle_kind k fd text status c).cars)
    by_kind Kind.call = elim (Option-cases (scan_call text)) [
      | inl e ↦ rw e (omega arith)
      | inr (floors, e) ↦ rw e (omega arith)
    ]
    by_kind Kind.car = register_car-cars fd text status c x
    by_kind Kind.other = omega arith

insert_now-fds :
    (found : Option Car) (call : Call) (c : Controller)
    → (car_fds (insert_now found call c).cars ≡ car_fds c.cars)
      × ((insert_now found call c).calls ≡ c.calls)
      × ((insert_now found call c).closed ≡ c.closed)
insert_now-fds none call c = (refl, refl, refl)
insert_now-fds (some a) call c = (
  car_fds-write_back (insert_floors_into_queue a call (call_direction call)).0 c.cars,
  refl,
  refl,
)

-- The call that the control loop has in hand counts as held.
pub control_step-keeps :
    (turn : Turn) (c : Controller) (x : ℕ)
    → let l = control_step turn c in
      (occurrences x (call_fds (in_hand l.turn)) + held x l.controller
        ≡ occurrences x (call_fds (in_hand turn)) + held x c)
      × (car_fds l.controller.cars ≡ car_fds c.cars)
unfolding control_step
control_step-keeps free c x = go c.calls refl
  where
    go :
        (calls : List Call)
        → c.calls ≡ calls
        → let l = take_call calls c in
          (occurrences x (call_fds (in_hand l.turn)) + held x l.controller ≡ 0 + held x c)
          × (car_fds l.controller.cars ≡ car_fds c.cars)
    go [] e = (refl, refl)
    go (call ∷ calls) e =
        let waiting = ap (λ l. occurrences x (call_fds l)) e in (omega (arith, waiting), refl)
control_step-keeps (taken call) c x = (refl, refl)
control_step-keeps (chosen call none) c x =
    (omega (arith, occurrences-append x c.closed (call.fd ∷ [])), refl)
control_step-keeps (chosen call (some car)) c x =
    let (cars', calls', closed') = insert_now-fds (find_car car.fd c.cars) call c in
    let kept = ap (occurrences x) cars' in
    let waiting = ap (λ l. occurrences x (call_fds l)) calls' in
    let shut = ap (occurrences x) closed' in (omega (arith, kept, waiting, shut), cars')
control_step-keeps (inserted call car) c x =
    (omega (arith, occurrences-append x c.closed (call.fd ∷ [])), refl)

pub remove_car-fds :
    (fd x : ℕ) (cars : List Car)
    → 0 < occurrences fd (car_fds cars)
    → occurrences x (car_fds (remove_car fd cars)) + occurrences x (fd ∷ [])
      ≡ occurrences x (car_fds cars)
unfolding remove_car
remove_car-fds fd x [] h = absurd (omega arith)
remove_car-fds fd x (car ∷ cars) h = ground (arith, remove_car-fds fd x cars, ==_iff car.fd fd)

store_update-fds :
    (status : Bytes × Bytes × Bytes) (o : Option Car) (c : Controller)
    → let c' = store_update status o c in
      (car_fds c'.cars ≡ car_fds c.cars) × (c'.calls ≡ c.calls) × (c'.closed ≡ c.closed)
store_update-fds status none c = (refl, refl, refl)
store_update-fds status (some a) c = (car_fds-write_back _ c.cars, refl, refl)

-- One round of the loop of a car whose flag is set: the descriptors of the lists stay, and the
-- descriptor is closed where the round clears the flag.
pub record Round (fd x : ℕ) (c : Controller) (r : Controller × Bool × Bool) : Type 0 where
  pub cars : car_fds r.0.cars ≡ car_fds c.cars
  pub calls : r.0.calls ≡ c.calls
  pub closed :
      occurrences x r.0.closed
      ≡ occurrences x c.closed + occurrences x (if r.1 then [] else fd ∷ [])
  pub flag_kept : r.2 ≡ true → r.1 ≡ true

pub status_round-Round :
    (fd x : ℕ) (text : Option Bytes) (c : Controller) → Round fd x c (status_round fd text true c)
unfolding status_round
status_round-Round fd x none c = record {
  cars = refl;
  calls = refl;
  closed = occurrences-append x c.closed (fd ∷ []);
  flag_kept = λ e. absurd (false≢true e);
}
status_round-Round fd x (some text) c = elim (Option-cases (scan_status text)) [
  | inl e ↦
      rw e (record { cars = refl; calls = refl; closed = omega arith; flag_kept = λ e'. refl })
  | inr (status, e) ↦
      let (cars', calls', closed') = store_update-fds status (find_car fd c.cars) c in
      rw e (record {
        cars = cars';
        calls = calls';
        closed = omega (arith, ap (occurrences x) closed');
        flag_kept = λ e'. refl;
      })
]
