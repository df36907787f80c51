-- ===== src/Car/Connection.antt =====
-- assignment2/car.c, `controller_connection`: the thread that talks to the controller, from the
-- greeting on, one round of its inner loop at a time.
pub mod Orders
use cab403work.Base.{
  ℕ, suc, Bool, true, false, not, ◌&&◌, List, [], ◌∷◌, ◌++◌, ◌==◌, if◌then◌else◌, drop, Option,
  none, some,
}
use cab403work.Base.Text.{Bytes, codes}
use cab403work.Libc.{streq, starts_with, scan_word, truncated}
use cab403work.Shared.Memory.{SharedMem, between}

-- `send_status`: "STATUS <status> <current> <destination>" in a buffer of 256 bytes.
unfoldable pub status_message : SharedMem → Bytes
status_message m = truncated 256 (
    codes "STATUS "
    ++ (m.status ++ (codes " " ++ (m.current_floor ++ (codes " " ++ m.destination_floor)))))

-- "CAR <name> <lowest> <highest>" in a buffer of 256 bytes.
unfoldable pub greeting : Bytes → Bytes → Bytes → Bytes
greeting name lowest_floor highest_floor =
    truncated 256
      (codes "CAR " ++ (name ++ (codes " " ++ (lowest_floor ++ (codes " " ++ highest_floor)))))

-- The shared memory, `pending_destination`, whether the loop goes on, the texts sent and the
-- broadcasts made.
pub record Link : Type 0 where
  pub memory : SharedMem
  pub pending : Bytes
  pub connected : Bool
  pub sent : List Bytes
  pub broadcasts : ℕ

-- `send_message`, whose writes succeed; where one fails, `exit` ends the program, and Car/Attempts cuts
-- the texts off there.
abbrev pub send : Bytes → Link → Link
send text l = record l { sent = l.sent ++ text ∷ [] }

abbrev pub disconnect : Link → Link
disconnect l = record l { connected = false }

-- What `read` finds in the pipe: bytes, its end, or an error.
pub data PipeRead : Type 0 where
  some_bytes pipe_end pipe_error : PipeRead

-- `poll` on the socket and the pipe: -1, 0, or what `receive_msg` and `read` return where the two
-- are readable.
pub data Polled : Type 0 where
  poll_error poll_timeout : Polled
  events : Option (Option Bytes) → Option PipeRead → Polled

-- A pending destination goes into the memory unless the car is between two floors.
unfoldable pub deliver_pending : Link → Link
deliver_pending l =
    if not (streq l.pending []) && not (streq l.memory.status between)
    then record l {
      memory = record l.memory { destination_floor = l.pending };
      pending = [];
      broadcasts = suc l.broadcasts;
    }
    else l

-- `sscanf(message + 6, "%3s", pending_destination)`
abbrev pub set_pending : Option (Bytes × Bytes) → Link → Link
set_pending none l = l
set_pending (some (floor, rest)) l = record l { pending = floor }

unfoldable pub read_order : Bytes → Link → Link
unfolding starts_with scan_word
read_order text l =
    if starts_with text (codes "FLOOR ") then set_pending (scan_word 3 (drop 6 text)) l else l

-- The pipe, on the memory as it stands then.
abbrev pub read_pipe : Option PipeRead → SharedMem → Link → Link
read_pipe none now l = l
read_pipe (some some_bytes) now l = send (status_message now) l
read_pipe (some pipe_end) now l = disconnect l
read_pipe (some pipe_error) now l = disconnect l

abbrev pub after_poll : Polled → SharedMem → Link → Link
after_poll poll_error now l = disconnect l
after_poll poll_timeout now l = send (status_message now) l
after_poll (events none pipe) now l = read_pipe pipe now l
after_poll (events (some none) pipe) now l = disconnect l
after_poll (events (some (some text)) pipe) now l = read_pipe pipe now (read_order text l)

-- One round: the monitor's flag, the critical section, and the poll. `now` is the memory when a
-- status is sent, which is outside the critical section.
unfoldable pub link_round : Bool → Polled → SharedMem → Link → Link
unfolding deliver_pending read_order status_message
link_round connection_alive polled now l =
    if not connection_alive
    then disconnect l
    else (let l' = deliver_pending l in
        if l'.memory.emergency_mode == 1
        then disconnect (send (codes "EMERGENCY") l')
        else if l'.memory.individual_service_mode == 1
        then disconnect (send (codes "INDIVIDUAL SERVICE") l')
        else after_poll polled now l')
