-- ===== src/Monitor.antt =====
-- The monitor threads, `monitor_connection` of assignment2/car.c and `monitor_socket` of
-- assignment2/controller.c: what one round of their loops makes of `poll` and `recv`.
pub mod Flags
use cab403work.Base.{Bool, true, false, not, if◌then◌else◌, List, [], ◌∷◌}

-- `recv` with MSG_PEEK and MSG_DONTWAIT: the end of the stream, a byte, EAGAIN or EWOULDBLOCK, or
-- another error.
pub data Peek : Type 0 where
  end byte again error : Peek

-- `poll` with no timeout: -1, or the events; `hung_up` is any of POLLERR, POLLHUP and POLLNVAL.
pub data Poll : Type 0 where
  failed : Poll
  ready : Bool → Bool → Peek → Poll

-- What the thread does to the connection's flag, and whether it goes on.
pub record Monitor : Type 0 where
  pub alive : Bool
  pub running : Bool

abbrev pub peeked : Bool → Peek → Monitor
peeked alive end = record { alive = false; running = false }
peeked alive byte = record { alive = alive; running = true }
peeked alive again = record { alive = alive; running = true }
peeked alive error = record { alive = false; running = false }

-- `monitor_connection` of the car.
unfoldable pub monitor_connection : Bool → Poll → Monitor
monitor_connection alive failed = record { alive = alive; running = false }
monitor_connection alive (ready hung_up readable peek) =
    if hung_up
    then record { alive = false; running = false }
    else if readable
    then peeked alive peek
    else record { alive = alive; running = true }

-- `monitor_socket` of the controller has the same cases, and shuts the socket down when it is the
-- one that clears the flag; only at the end of the stream it closes the descriptor too.
pub record SocketMonitor : Type 0 where
  pub flag : Monitor
  pub shut_down : Bool
  pub closes : Bool

abbrev pub cleared : Bool → Bool → SocketMonitor
cleared connected closes = record {
  flag = record { alive = false; running = false };
  shut_down = connected;
  closes = if connected then closes else false;
}

abbrev pub kept : Bool → Bool → SocketMonitor
kept connected running = record {
  flag = record { alive = connected; running = running };
  shut_down = false;
  closes = false;
}

abbrev pub socket_peeked : Bool → Peek → SocketMonitor
socket_peeked connected end = cleared connected true
socket_peeked connected byte = kept connected true
socket_peeked connected again = kept connected true
socket_peeked connected error = cleared connected false

unfoldable pub monitor_socket : Bool → Poll → SocketMonitor
monitor_socket connected failed = kept connected false
monitor_socket connected (ready hung_up readable peek) =
    if hung_up
    then cleared connected false
    else if readable
    then socket_peeked connected peek
    else kept connected true
