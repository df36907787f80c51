-- ===== src/Controller/Listener.antt =====
-- assignment2/controller.c: the listening thread `controller_connection`, the first message of a
-- connection in `handle_connection`, and the end of the program in `sigint_handler`.
pub mod Held
pub mod Program
pub mod Counts
pub mod Descriptors
pub mod Leaks
use cab403work.Base.{
  ℕ, Bool, true, false, List, [], ◌∷◌, ◌++◌, if◌then◌else◌, map, Option, none, some,
}
use cab403work.Base.Text.{Bytes, codes}
use cab403work.Controller.State.{Car, Call, Controller}
use cab403work.Controller.Connections.{
  close, handle_call_connection, register_car, Kind, connection_kind,
}

-- The texts of `perror` where the set-up of the socket fails, from whether `socket`, `setsockopt`,
-- `bind` and `listen` succeed: the first failure ends the program.
unfoldable pub setup_error : Bool → Bool → Bool → Bool → Option Bytes
setup_error socket setsockopt bind listen =
    if socket
    then (if setsockopt
        then (if bind
            then (if listen then none else some (codes "listen()"))
            else some (codes "bind()"))
        else some (codes "setsockopt()"))
    else some (codes "socket()")

-- The descriptors that `accept` has returned, those whose thread waits for its first messages, and
-- the lists of the controller.
pub record Listener : Type 0 where
  pub opened : List ℕ
  pub starting : List ℕ
  pub controller : Controller

-- What `accept` returns, and whether `malloc` finds memory for the descriptor.
pub data Accept : Type 0 where
  accept_error : Accept
  accepted : ℕ → Bool → Accept

-- One round of the loop; none where `exit` ends the program.
unfoldable pub listen_round : Accept → Listener → Option Listener
listen_round accept_error l = none
listen_round (accepted new_sock true) l =
    some (record l { opened = l.opened ++ new_sock ∷ []; starting = l.starting ++ new_sock ∷ [] })
listen_round (accepted new_sock false) l =
    some (record l { opened = l.opened ++ new_sock ∷ []; controller = close new_sock l.controller })

-- The first message is a text. The status is read, and NULL for a connection that ends, only where
-- the greeting is that of a car. The loop behind the registration is `car_connection`.
abbrev pub handle_kind : Kind → ℕ → Bytes → Option Bytes → Controller → Controller
handle_kind Kind.call conn_fd initial_message status_update c =
    handle_call_connection conn_fd initial_message c
handle_kind Kind.car conn_fd initial_message status_update c =
    register_car conn_fd initial_message status_update c
handle_kind Kind.other conn_fd initial_message status_update c = close conn_fd c

unfoldable pub handle_connection : ℕ → Bytes → Option Bytes → Controller → Controller
unfolding connection_kind handle_call_connection register_car
handle_connection conn_fd initial_message status_update c =
    handle_kind (connection_kind initial_message) conn_fd initial_message status_update c

-- Behind the listening socket, every car's connection is closed and its node freed, and then every
-- call's.
abbrev pub close_cars : List Car → Controller → Controller
close_cars [] c = record c { cars = [] }
close_cars (current ∷ next) c = close_cars next (close current.fd c)

abbrev pub close_calls : List Call → Controller → Controller
close_calls [] c = record c { calls = [] }
close_calls (current_call ∷ next_call) c = close_calls next_call (close current_call.fd c)

unfoldable pub sigint_handler : Controller → Controller
sigint_handler c = let c' = close_cars c.cars c in close_calls c'.calls c'
