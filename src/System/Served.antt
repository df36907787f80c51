-- ===== src/System/Served.antt =====
-- The programs of assignment2 with each other: a car that connects and the controller.
use cab403work.Base.{ℕ, ◌≡◌, refl, ap, ◌∙◌, [], ◌∷◌, arith, take-all, some}
use cab403work.Base.Text.{Bytes}
use cab403work.Libc.{starts_with}
use cab403work.Libc.Words.{IsWord}
use cab403work.Shared.Memory.{SharedMem}
use cab403work.Car.Connection.{status_message, greeting}
use cab403work.Car.Attempts.{greeted}
use cab403work.Controller.State.{Car, Controller}
use cab403work.Controller.Messages.{scan_car, scan_status}
use cab403work.Controller.Messages.RoundTrip.{scan_car-greeting, scan_status-status_message}
use cab403work.Controller.Connections.{new_car, register_car, Kind, connection_kind}

greeting-kind :
    (name lowest_floor highest_floor : Bytes)
    → connection_kind (greeting name lowest_floor highest_floor) ≡ Kind.car
unfolding connection_kind starts_with greeting
greeting-kind name lowest_floor highest_floor = refl

-- What the controller knows of a car behind its greeting and its first status.
abbrev pub known_car : ℕ → Bytes → Bytes → Bytes → SharedMem → Car
known_car fd name lowest_floor highest_floor m = record {
  fd = fd;
  name = name;
  lowest_floor = lowest_floor;
  highest_floor = highest_floor;
  current_floor = m.current_floor;
  destination_floor = m.destination_floor;
  status = m.status;
  floor_queue = [];
}

new_car-whole :
    (fd : ℕ) (name lowest_floor highest_floor : Bytes) (m : SharedMem)
    → IsWord 99 name
    → IsWord 3 lowest_floor
    → IsWord 3 highest_floor
    → IsWord 7 m.status
    → IsWord 3 m.current_floor
    → IsWord 3 m.destination_floor
    → new_car fd
        (name, lowest_floor, highest_floor)
        (m.status, m.current_floor, m.destination_floor)
      ≡ known_car fd name lowest_floor highest_floor m
unfolding new_car
new_car-whole fd name lowest_floor highest_floor m n l h s f d = rw (
  take-all 255 name (omega (arith, n.2)),
  take-all 3 lowest_floor l.2,
  take-all 3 highest_floor h.2,
  take-all 3 m.current_floor f.2,
  take-all 3 m.destination_floor d.2,
  take-all 7 m.status s.2,
)

register_car-read :
    (fd : ℕ) (initial_message status_update : Bytes) (hello status : Bytes × Bytes × Bytes)
    (c : Controller)
    → scan_car initial_message ≡ some hello
    → scan_status status_update ≡ some status
    → register_car fd initial_message (some status_update) c
      ≡ record c { cars = new_car fd hello status ∷ c.cars }
unfolding register_car
register_car-read fd initial_message status_update hello status c e e' = rw (e, e')

-- The two texts that a car sends as it connects, for a name of at most 99 bytes, a status of at
-- most seven and floors of at most three, all words, make the controller treat the connection as
-- that of a car and put it at the head of its list, with its name, its range and its state whole
-- and with no stops.
pub register_car-greeted :
    (name lowest_floor highest_floor pending : Bytes) (m : SharedMem) (fd : ℕ) (c : Controller)
    → IsWord 99 name
    → IsWord 3 lowest_floor
    → IsWord 3 highest_floor
    → IsWord 7 m.status
    → IsWord 3 m.current_floor
    → IsWord 3 m.destination_floor
    → (initial_message status_update : Bytes) × ((greeted name lowest_floor highest_floor m
          pending).sent
        ≡ initial_message ∷ status_update ∷ [])
      × (connection_kind initial_message ≡ Kind.car)
      × (register_car fd initial_message (some status_update) c
          ≡ record c { cars = known_car fd name lowest_floor highest_floor m ∷ c.cars })
unfolding greeted
register_car-greeted name lowest_floor highest_floor pending m fd c n l h s f d = (
  greeting name lowest_floor highest_floor,
  status_message m,
  refl,
  greeting-kind name lowest_floor highest_floor,
  register_car-read fd _ _ _ _ c (scan_car-greeting name lowest_floor highest_floor n l h)
        (scan_status-status_message m s f d)
      ∙ ap (λ a. record c { cars = a ∷ c.cars })
          (new_car-whole fd name lowest_floor highest_floor m n l h s f d),
)
