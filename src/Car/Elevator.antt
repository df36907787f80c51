-- ===== src/Car/Elevator.antt =====
-- assignment2/car.c: the state of `elevator_loop` and the statements that its branches are made of.
use cab403work.Base.{ℕ, suc, Bool, not}
use cab403work.Base.Text.{Bytes}
use cab403work.Libc.{streq}
use cab403work.Shared.Memory.{SharedMem}
use cab403work.Car.Clock.{Timespec, absolute_timeout}

-- What the loop does not choose: `delay`, and the readings of CLOCK_REALTIME in their order.
pub record Env : Type 0 where
  pub delay : ℕ
  pub realtime : ℕ → Timespec

-- The shared memory, the deadline, how often the clock was read, the bytes written to the pipe
-- and the broadcasts made.
pub record Elevator : Type 0 where
  pub shm : SharedMem
  pub timeout : Timespec
  pub readings : ℕ
  pub notices : ℕ
  pub broadcasts : ℕ

-- Statements stand in the order in which they run.
infixl 20 ◌▷◌
abbrev pub ◌▷◌ : Elevator → (Elevator → Elevator) → Elevator
e ▷ f = f e

abbrev pub calculate_absolute_timeout : Env → Elevator → Elevator
calculate_absolute_timeout env e = record e {
  timeout = absolute_timeout env.delay (env.realtime e.readings);
  readings = suc e.readings;
}

abbrev pub notify_status_change : Elevator → Elevator
notify_status_change e = record e { notices = suc e.notices }

abbrev pub broadcast : Elevator → Elevator
broadcast e = record e { broadcasts = suc e.broadcasts }

abbrev pub set_status : Bytes → Elevator → Elevator
set_status text e = record e { shm = record e.shm { status = text } }

abbrev pub set_current : Bytes → Elevator → Elevator
set_current floor e = record e { shm = record e.shm { current_floor = floor } }

abbrev pub set_destination : Bytes → Elevator → Elevator
set_destination floor e = record e { shm = record e.shm { destination_floor = floor } }

abbrev pub clear_open : Elevator → Elevator
clear_open e = record e { shm = record e.shm { open_button = 0 } }

abbrev pub clear_close : Elevator → Elevator
clear_close e = record e { shm = record e.shm { close_button = 0 } }

-- `strcmp(status, text) == 0`
abbrev pub status_is : Elevator → Bytes → Bool
status_is e text = streq e.shm.status text

-- `strcmp(current_floor, destination_floor) != 0`
abbrev pub elsewhere : Elevator → Bool
elsewhere e = not (streq e.shm.current_floor e.shm.destination_floor)
