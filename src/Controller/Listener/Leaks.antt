-- ===== src/Controller/Listener/Leaks.antt =====
-- assignment2/controller.c: the end of a car's connection whose flag `monitor_socket` has cleared.
use cab403work.Base.{ℕ, ◌≡◌, refl, Bool, true, false, List, ◌∷◌, Option}
use cab403work.Base.Text.{Bytes}
use cab403work.Monitor.{error, Poll, ready, monitor_socket}
use cab403work.Controller.State.{Controller}
use cab403work.Controller.Connections.{status_round, remove_car, end_connection, car_connection}

-- What the monitor thread finds where the connection has an error.
pub data Broken : Poll → Type 0 where
  hung_up : (readable : Bool) (peek : _) → Broken (ready true readable peek)
  unreadable : Broken (ready false true error)

-- Where the monitor thread of a connection finds an error, it clears the flag, and neither it nor
-- the thread of the car closes the descriptor: the car leaves the list, and the closed descriptors
-- stay the same.
monitor_socket-leaks :
    (p : Poll) (fd : ℕ) (text : Option Bytes) (texts : List (Option Bytes)) (c : Controller)
    → Broken p
    → let m = monitor_socket true p in
      (m.flag.alive ≡ false)
      × (m.closes ≡ false)
      × (car_connection fd (text ∷ texts) m.flag.alive c ≡ record c { cars = remove_car fd c.cars })
unfolding monitor_socket car_connection status_round end_connection
monitor_socket-leaks p fd text texts c (hung_up readable peek) = (refl, refl, refl)
monitor_socket-leaks p fd text texts c unreadable = (refl, refl, refl)
