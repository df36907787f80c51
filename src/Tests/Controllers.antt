-- ===== src/Tests/Controllers.antt =====
-- The threads of assignment2/controller.c on examples.
use cab403work.Base.{true, false, [], ◌∷◌, none, some}
use cab403work.Base.Text.{codes}
use cab403work.Controller.Dispatch.{Loop, free, control_step}
use cab403work.Controller.Connections.{status_round}
use cab403work.Controller.State.{Controller}
use cab403work.Controller.Listener.{handle_connection}
use cab403work.Controller.Listener.Program.{Program, no_connections}

-- A car and a call pad have connected.
abbrev with_both : Controller
with_both = handle_connection 6 (codes "CALL 1 3") none (
    handle_connection 5 (codes "CAR Alpha 1 3") (some (codes "STATUS Closed 1 1"))
      no_connections.listener.controller)

-- The control loop has taken the call.
abbrev call_taken : Loop
call_taken = control_step free with_both

-- The connection of the car has been closed, and the car is in the list still.
abbrev car_closed : Program
car_closed = record {
  listener = record {
    opened = 5 ∷ 6 ∷ [];
    starting = [];
    controller = (status_round 5 none true call_taken.controller).0;
  };
  turn = call_taken.turn;
  ending = (5, false) ∷ [];
  left = [];
}
