-- ===== src/Controller/Listener/Program.antt =====
-- The threads of assignment2/controller.c, one critical section a step.
use cab403work.Base.{
  ℕ, ◌<◌, ◌≡◌, Bool, true, false, not, List, [], ◌∷◌, ◌++◌, if◌then◌else◌, Option, some,
}
use cab403work.Base.Text.{Bytes}
use cab403work.Controller.State.{Controller}
use cab403work.Controller.Dispatch.{Turn, free, control_step}
use cab403work.Controller.Connections.{status_round, leave_list, close_last}
use cab403work.Controller.Listener.{Listener, Accept, listen_round, handle_connection}
use cab403work.Controller.Listener.Held.{occurrences, car_fds}

-- The threads of the controller: the control loop at its turn, and the connections of cars behind
-- their loops, with their flags: those whose car is in the list still, and those whose car has left
-- it.
pub record Program : Type 0 where
  pub listener : Listener
  pub turn : Turn
  pub ending : List (ℕ × Bool)
  pub left : List (ℕ × Bool)

abbrev pub at_controller : Controller → Program → Program
at_controller c p = record p { listener = record p.listener { controller = c } }

abbrev pub ending_fds : List (ℕ × Bool) → List ℕ
ending_fds [] = []
ending_fds ((fd, connected) ∷ ends) = fd ∷ ending_fds ends

abbrev pub same_flag : Bool → Bool → Bool
same_flag true connected = connected
same_flag false connected = not connected

-- The descriptors with the flag `b`.
abbrev pub flagged : Bool → List (ℕ × Bool) → List ℕ
flagged b [] = []
flagged b ((fd, connected) ∷ ends) =
    (if same_flag b connected then fd ∷ [] else []) ++ flagged b ends

-- The loop of a car goes on behind a round, or has ended.
abbrev pub after_round : ℕ → Controller × Bool × Bool → Program → Program
after_round fd (c, connected, true) p = at_controller c p
after_round fd (c, connected, false) p = record (at_controller c p) {
  ending = p.ending ++ (fd, connected) ∷ [];
}

-- A critical section of one of the controller's threads: the listening thread; the thread of a
-- connection at its first messages; the control loop; the thread of a car at its next message, where
-- it has not left its loop; and then the two sections behind that loop. A message that is a status
-- has two sections, on the state of the car and on its queue, of which neither touches a descriptor.
pub data Step (p : Program) : Program → Type 0 where
  accepts :
      (a : Accept) (l' : Listener)
      → listen_round a p.listener ≡ some l'
      → Step p (record p { listener = l' })
  begins :
      (before behind : List ℕ) (fd : ℕ) (initial_message : Bytes) (status_update : Option Bytes)
      → p.listener.starting ≡ before ++ fd ∷ behind
      → Step p (record p {
        listener = record p.listener {
          starting = before ++ behind;
          controller = handle_connection fd initial_message status_update p.listener.controller;
        };
      })
  goes_on :
      Step p (record (at_controller (control_step p.turn p.listener.controller).controller p) {
        turn = (control_step p.turn p.listener.controller).turn;
      })
  receives :
      (fd : ℕ) (text : Option Bytes)
      → occurrences fd (ending_fds p.ending) < occurrences fd (car_fds p.listener.controller.cars)
      → Step p (after_round fd (status_round fd text true p.listener.controller) p)
  leaves :
      (before behind : List (ℕ × Bool)) (fd : ℕ) (connected : Bool)
      → p.ending ≡ before ++ (fd, connected) ∷ behind
      → Step p (record (at_controller (leave_list fd p.listener.controller) p) {
        ending = before ++ behind;
        left = p.left ++ (fd, connected) ∷ [];
      })
  closes :
      (before behind : List (ℕ × Bool)) (fd : ℕ) (connected : Bool)
      → p.left ≡ before ++ (fd, connected) ∷ behind
      → Step p (record (at_controller (close_last fd connected p.listener.controller) p) {
        left = before ++ behind;
      })

pub data Reach (p : Program) : Program → Type 0 where
  here : Reach p p
  later : {p' p'' : Program} → Reach p p' → Step p' p'' → Reach p p''

-- The program at its start.
abbrev pub no_connections : Program
no_connections = record {
  listener = record {
    opened = [];
    starting = [];
    controller = record { cars = []; calls = []; messages = []; closed = [] };
  };
  turn = free;
  ending = [];
  left = [];
}
