-- ===== src/Monitor/Flags.antt =====
-- The two monitor threads, `monitor_connection` of assignment2/car.c and `monitor_socket` of
-- assignment2/controller.c, compared.
use cab403work.Base.{◌≡◌, ◌⊎◌, ◌↔◌, Bool, true, false, arith}
use cab403work.Monitor.{
  end, byte, again, error, Poll, failed, ready, monitor_connection, monitor_socket,
}

-- For every flag and result of `poll` and `recv` the two threads treat the flag alike and go on
-- alike; the controller's shuts the socket down exactly when it clears a flag that was set, and
-- closes the descriptor only where it shuts the socket down; the flag is kept, or cleared by a
-- thread that ends.
monitor_socket-monitor_connection :
    (alive : Bool) (poll : Poll)
    → ((monitor_socket alive poll).flag ≡ monitor_connection alive poll)
      × ((monitor_socket alive poll).shut_down ≡ true
          ↔ (alive ≡ true) × ((monitor_connection alive poll).alive ≡ false))
      × ((monitor_socket alive poll).closes ≡ true → (monitor_socket alive poll).shut_down ≡ true)
      × (((monitor_connection alive poll).alive ≡ alive)
          ⊎ (((monitor_connection alive poll).alive ≡ false)
              × ((monitor_connection alive poll).running ≡ false)))
unfolding monitor_socket monitor_connection
monitor_socket-monitor_connection alive failed = ground arith
monitor_socket-monitor_connection alive (ready hung_up readable end) = ground arith
monitor_socket-monitor_connection alive (ready hung_up readable byte) = ground arith
monitor_socket-monitor_connection alive (ready hung_up readable again) = ground arith
monitor_socket-monitor_connection alive (ready hung_up readable error) = ground arith
