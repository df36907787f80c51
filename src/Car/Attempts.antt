-- ===== src/Car/Attempts.antt =====
-- assignment2/car.c, `controller_connection`: the outer loop, from the socket to the end of a
-- connection. What the calls of the system return is an input.
pub mod Greeted
use cab403work.Base.{
  ℕ, Bool, true, false, List, [], ◌∷◌, ◌++◌, if◌then◌else◌, ltb, length, take, Option, none, some,
}
use cab403work.Base.Text.{Bytes}
use cab403work.Shared.Memory.{SharedMem}
use cab403work.Car.Connection.{Link, Polled, send, greeting, status_message, link_round}

-- How far the set-up comes: no socket, no address, no controller, no memory or no thread for the
-- monitor, or all of it.
pub data Setup : Type 0 where
  no_socket no_address no_controller no_memory no_thread monitored : Setup

-- What a round of the inner loop finds: the monitor's flag, the poll, the memory when a status is
-- sent, and the memory that the other programs have left before the round.
pub record Found : Type 0 where
  pub connection_alive : Bool
  pub polled : Polled
  pub now : SharedMem
  pub memory : SharedMem

-- The inner loop, as far as the rounds are given.
unfoldable pub session : List Found → Link → Link
session [] l = l
session (found ∷ rounds) l =
    let rest = session rounds (
      link_round found.connection_alive found.polled found.now
        (record l { memory = found.memory })) in
    if l.connected then rest else l

-- One round of the outer loop: the descriptor of the socket, the set-up, the memory at the greeting,
-- the rounds, which text is the first whose `write` fails, if one is, and whether the monitor thread
-- ends when it is joined.
pub record Attempt : Type 0 where
  pub fd : ℕ
  pub setup : Setup
  pub memory : SharedMem
  pub rounds : List Found
  pub failing_write : Option ℕ
  pub monitor_ends : Bool

-- Where the thread is: in front of a new attempt, in a connection, at the join behind one, or gone
-- with the program, which a failed `write` ends.
pub data Standing : Type 0 where
  retrying connected joining exited : Standing

-- The thread's variable `pending_destination`, the sockets that it has opened and closed, the texts
-- that it has sent on each connection, and where it is.
pub record Client : Type 0 where
  pub pending : Bytes
  pub opened : List ℕ
  pub closed : List ℕ
  pub connections : List (List Bytes)
  pub standing : Standing

-- The texts that go out before a `write` fails, or none if no write of theirs fails.
unfoldable pub cut : Option ℕ → List Bytes → Option (List Bytes)
cut none texts = none
cut (some k) texts = if ltb k (length texts) then some (take k texts) else none

-- A socket that is opened and closed at once.
abbrev pub given_up : ℕ → Client → Client
given_up fd c = record c { opened = c.opened ++ fd ∷ []; closed = c.closed ++ fd ∷ [] }

-- The program ends with the socket open.
abbrev pub exits : ℕ → List Bytes → Client → Client
exits fd texts c = record c {
  opened = c.opened ++ fd ∷ [];
  connections = c.connections ++ texts ∷ [];
  standing = exited;
}

abbrev pub ended_early : Option (List Bytes) → ℕ → Link → Client → Client
ended_early (some texts) fd l c = exits fd texts c
ended_early none fd l c = record (given_up fd c) { connections = c.connections ++ l.sent ∷ [] }

-- Behind the inner loop the monitor thread is joined, and then the socket closed.
abbrev pub cleanup : Bool → ℕ → Client → Client
cleanup true fd c = record c { closed = c.closed ++ fd ∷ []; standing = retrying }
cleanup false fd c = record c { standing = joining }

abbrev pub after_session : Option (List Bytes) → Bool → ℕ → Link → Client → Client
after_session (some texts) monitor_ends fd l c = exits fd texts c
after_session none monitor_ends fd l c =
    let c' = record c {
      pending = l.pending;
      opened = c.opened ++ fd ∷ [];
      connections = c.connections ++ l.sent ∷ [];
      standing = connected;
    } in
    if l.connected then c' else cleanup monitor_ends fd c'

module _ (name lowest_floor highest_floor : Bytes) where
  -- The greeting and the first status, on a socket that is connected.
  unfoldable pub greeted : SharedMem → Bytes → Link
  greeted memory pending = send (status_message memory) (
      send (greeting name lowest_floor highest_floor) (record {
        memory = memory;
        pending = pending;
        connected = true;
        sent = [];
        broadcasts = 0;
      }))

  abbrev pub set_up : Setup → Attempt → Client → Client
  set_up no_socket a c = c
  set_up no_address a c = given_up a.fd c
  set_up no_controller a c = given_up a.fd c
  set_up no_memory a c =
      let l = greeted a.memory c.pending in ended_early (cut a.failing_write l.sent) a.fd l c
  set_up no_thread a c =
      let l = greeted a.memory c.pending in ended_early (cut a.failing_write l.sent) a.fd l c
  set_up monitored a c =
      let l = session a.rounds (greeted a.memory c.pending) in
      after_session (cut a.failing_write l.sent) a.monitor_ends a.fd l c

  unfoldable pub attempt : Attempt → Client → Client
  unfolding greeted session cut
  attempt a c = set_up a.setup a c

  abbrev pub goes_on : Standing → Client → Client → Client
  goes_on retrying c rest = rest
  goes_on connected c rest = c
  goes_on joining c rest = c
  goes_on exited c rest = c

  -- The outer loop goes on when the connection has ended and its socket is closed.
  unfoldable pub attempts : List Attempt → Client → Client
  unfolding attempt
  attempts [] c = c
  attempts (a ∷ others) c = let rest = attempts others (attempt a c) in goes_on c.standing c rest

-- The thread at its start.
abbrev pub unconnected : Client
unconnected = record {
  pending = [];
  opened = [];
  closed = [];
  connections = [];
  standing = retrying;
}
