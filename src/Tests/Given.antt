-- ===== src/Tests/Given.antt =====
-- The cars, memories and calls of the examples on assignment2.
use mathlib.Core.Bool.{false≢true}
use cab403work.Base.{ℕ, ◌≡◌, ◌≢◌, sym, ◌∙◌, true, false, [], ◌∷◌}
use cab403work.Libc.{streq, streq_iff}
use cab403work.Base.Text.{Bytes, codes}
use cab403work.Shared.Memory.{SharedMem, closed, between}
use cab403work.Car.Clock.{Timespec}
use cab403work.Car.Elevator.{Env, Elevator}
use cab403work.Car.Connection.{Link}
use cab403work.Controller.State.{up, FloorNode, Car, Call, Controller}

abbrev pub seconds : ℕ → Timespec
seconds n = record { tv_sec = n; tv_nsec = 0 }

-- A delay of half a second, and a clock that goes one second between two readings.
abbrev pub half_second : Env
half_second = record { delay = 500; realtime = seconds }

abbrev pub memory_at : Bytes → Bytes → Bytes → SharedMem
memory_at floor destination text = record {
  current_floor = floor;
  destination_floor = destination;
  status = text;
  open_button = 0;
  close_button = 0;
  door_obstruction = 0;
  overload = 0;
  emergency_stop = 0;
  individual_service_mode = 0;
  emergency_mode = 0;
}

abbrev pub elevator_with : SharedMem → Elevator
elevator_with m = record { shm = m; timeout = seconds 7; readings = 3; notices = 4; broadcasts = 5 }

-- Closed at floor 1 with orders for floor 3.
abbrev pub sent_up : SharedMem
sent_up = memory_at (codes "1") (codes "3") closed

-- Between floors, from floor 1 to floor 3.
abbrev pub on_its_way : SharedMem
on_its_way = memory_at (codes "1") (codes "3") between

-- Closed at floor 1 with nothing to do.
abbrev pub at_rest : SharedMem
at_rest = memory_at (codes "1") (codes "1") closed

abbrev pub link_with : SharedMem → Bytes → Link
link_with m floor = record {
  memory = m;
  pending = floor;
  connected = true;
  sent = [];
  broadcasts = 0;
}

abbrev pub stop_up : Bytes → FloorNode
stop_up floor = record { direction = up; floor = floor }

-- A car for floors B2 to 8 that stands at floor 1 with a stop at floor 4.
abbrev pub alpha : Car
alpha = record {
  fd = 5;
  name = codes "Alpha";
  lowest_floor = codes "B2";
  highest_floor = codes "8";
  current_floor = codes "1";
  destination_floor = codes "4";
  status = closed;
  floor_queue = stop_up (codes "4") ∷ [];
}

abbrev pub two_to_seven : Call
two_to_seven = record { current_floor = codes "2"; destination_floor = codes "7"; fd = 9 }

abbrev pub one_car : Controller
one_car = record { cars = alpha ∷ []; calls = two_to_seven ∷ []; messages = []; closed = [] }

pub differs : (s t : Bytes) → streq s t ≡ false → s ≢ t
differs s t h e = false≢true (sym h ∙ (streq_iff s t).1 e)
