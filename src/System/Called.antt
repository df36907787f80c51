-- ===== src/System/Called.antt =====
-- The programs of assignment2 with each other: a call pad, the controller, and the car that it sends.
use cab403work.Base.{
  append_assoc, ℕ, ◌≡◌, ◌≢◌, refl, sym, ap, ◌∙◌, true, List, [], ◌∷◌, ◌++◌, arith, none, some,
}
use cab403work.Base.Text.{Bytes, All, codes}
use cab403work.Libc.{streq_ne, starts_with, truncated}
use cab403work.Libc.Words.{IsWord}
use cab403work.Shared.Memory.{SharedMem, between}
use cab403work.Shared.Floors.{validate_floor_input}
use cab403work.Car.Connection.{Link, Polled, events, link_round}
use cab403work.Car.Connection.Orders.{word-ne-nil, order_arrives}
use cab403work.Call.{request, send, call_message}
use cab403work.Call.Texts.{request-send}
use cab403work.Controller.State.{Direction, FloorNode, Car, Call, Message, Controller}
use cab403work.Controller.Queue.{
  floor_message, announce, stop, new_queue, insert_floors_into_queue, walk, insert_same_direction,
}
use cab403work.Controller.Dispatch.{
  select_best_car, write_back, call_direction, serve_call, append_call,
}
use cab403work.Controller.Dispatch.Selection.{Reaches, can_access_floors_iff}
use cab403work.Controller.Messages.{scan_call}
use cab403work.Controller.Messages.RoundTrip.{scan_call-call_message}
use cab403work.Controller.Connections.{handle_call_connection, Kind, connection_kind}

-- A call from `source` to `destination` of a car that has no stops.
both_stops :
    (a : Car) (d : Direction) (call : Call)
    → a.floor_queue ≡ []
    → new_queue a call d ≡ stop d call.current_floor ∷ stop d call.destination_floor ∷ []
unfolding new_queue insert_same_direction walk
both_stops a d call e = rw e (ground arith)

announce-stops :
    (a : Car) (node : FloorNode) (queue : List FloorNode)
    → a.floor_queue ≡ []
    → node.floor ≢ []
    → announce a (node ∷ queue) ≡ record { to = a.fd; text = floor_message node.floor } ∷ []
unfolding announce
announce-stops a node queue e n = rw (e, streq_ne [] node.floor (λ q. n (sym q)))

-- The first car that reaches both floors is taken.
select_first :
    (call : Call) (before behind : List Car) (a : Car)
    → All (λ c. ¬ (Reaches call c)) before
    → Reaches call a
    → select_best_car call (before ++ a ∷ behind) ≡ some a
unfolding select_best_car
select_first call [] behind a none' r =
    ground (arith, can_access_floors_iff a call.current_floor call.destination_floor)
select_first call (c ∷ before) behind a none' r = ground (
  arith,
  can_access_floors_iff c call.current_floor call.destination_floor,
  select_first call before behind a,
)

pub write_back-at :
    (before behind : List Car) (a a' : Car)
    → All (λ c. c.fd ≢ a.fd) before
    → a'.fd ≡ a.fd
    → write_back a' (before ++ a ∷ behind) ≡ before ++ a' ∷ behind
unfolding write_back
write_back-at [] behind a a' n e = ground arith
write_back-at (c ∷ before) behind a a' n e = ground (arith, write_back-at before behind a a')

abbrev pub call_from : Bytes → Bytes → ℕ → Call
call_from source destination fd = record {
  current_floor = source;
  destination_floor = destination;
  fd = fd;
}

-- The state behind a call that the car `a` takes at once, told by the text `order`.
abbrev pub answered : Bytes → List Car → List Car → Car → Call → Controller → Controller
answered order before behind a asked c =
    let d = call_direction asked in
    let stops = stop d asked.current_floor ∷ stop d asked.destination_floor ∷ [] in
    record {
      cars = before ++ record a { floor_queue = stops } ∷ behind;
      calls = [];
      messages =
          c.messages
          ++ record { to = a.fd; text = order }
            ∷ record { to = asked.fd; text = truncated 260 (codes "CAR " ++ a.name) }
            ∷ [];
      closed = c.closed ++ asked.fd ∷ [];
    }

insert-free :
    (a : Car) (asked : Call)
    → a.floor_queue ≡ []
    → asked.current_floor ≢ []
    → let d = call_direction asked in
      insert_floors_into_queue a asked d ≡ (
        record a { floor_queue = stop d asked.current_floor ∷ stop d asked.destination_floor ∷ [] },
        record { to = a.fd; text = floor_message asked.current_floor } ∷ [],
      )
unfolding insert_floors_into_queue
insert-free a asked e n =
    let d = call_direction asked in
    rw (
      both_stops a d asked e,
      announce-stops a (stop d asked.current_floor) (stop d asked.destination_floor ∷ []) e n,
    )

serve-free :
    (asked : Call) (a : Car) (before behind : List Car) (c : Controller)
    → c.calls ≡ []
    → c.cars ≡ before ++ a ∷ behind
    → All (λ b. ¬ (Reaches asked b)) before
    → All (λ b. b.fd ≢ a.fd) before
    → Reaches asked a
    → a.floor_queue ≡ []
    → asked.current_floor ≢ []
    → serve_call (append_call asked c)
      ≡ answered (floor_message asked.current_floor) before behind a asked c
unfolding serve_call append_call
serve-free asked a before behind c w e none' differ r free n =
    let d = call_direction asked in
    let stops = stop d asked.current_floor ∷ stop d asked.destination_floor ∷ [] in
    let order : Message = record { to = a.fd; text = floor_message asked.current_floor } in
    let reply : Message = record { to = asked.fd; text = truncated 260 (codes "CAR " ++ a.name) } in
    rw (w, e, select_first asked before behind a none' r, insert-free a asked free n)
      (rw (
        write_back-at before behind a (record a { floor_queue = stops }) differ refl,
        append_assoc c.messages (order ∷ []) (reply ∷ []),
      ))

handle_call_connection-read :
    (text source destination : Bytes) (fd : ℕ) (c : Controller)
    → scan_call text ≡ some (source, destination)
    → handle_call_connection fd text c ≡ append_call (call_from source destination fd) c
unfolding handle_call_connection
handle_call_connection-read text source destination fd c e = rw e

handle_call_connection-call :
    (source destination : Bytes) (fd : ℕ) (c : Controller)
    → IsWord 3 source
    → IsWord 3 destination
    → handle_call_connection fd (call_message source destination) c
      ≡ append_call (call_from source destination fd) c
handle_call_connection-call source destination fd c s d =
    handle_call_connection-read (call_message source destination) source destination fd c
      (scan_call-call_message source destination s d)

call_message-kind :
    (source destination : Bytes) → connection_kind (call_message source destination) ≡ Kind.call
unfolding connection_kind starts_with call_message
call_message-kind source destination = refl

-- Where no call waits, and some car of the list reaches both floors and has no stops, while the
-- cars before it do not reach both and have other descriptors: a call pad that is asked for two
-- different floors, both accepted and words of at most three bytes, sends a text that the
-- controller treats as a call; the next round of the control loop gives that car the two stops in
-- the direction of the call, answers the call with its name and sends it to the floor of the
-- caller; and the connection of the car, alive and in neither mode, that reads this text puts the
-- floor into the memory in its next round, if the status is not Between then.
pub call_comes_to_car :
    (source destination : Bytes) (fd : ℕ) (a : Car) (before behind : List Car) (c : Controller)
    (now now' m : SharedMem) (p : Polled) (l : Link)
    → validate_floor_input source ≡ true
    → validate_floor_input destination ≡ true
    → source ≢ destination
    → IsWord 3 source
    → IsWord 3 destination
    → c.calls ≡ []
    → c.cars ≡ before ++ a ∷ behind
    → All (λ b. ¬ (Reaches (call_from source destination fd) b)) before
    → All (λ b. b.fd ≢ a.fd) before
    → Reaches (call_from source destination fd) a
    → a.floor_queue ≡ []
    → l.memory.emergency_mode ≢ 1
    → l.memory.individual_service_mode ≢ 1
    → m.status ≢ between
    → (text order : Bytes) × (request (source ∷ destination ∷ []) ≡ send text)
      × (connection_kind text ≡ Kind.call)
      × (serve_call (handle_call_connection fd text c)
          ≡ answered order before behind a (call_from source destination fd) c)
      × (let l' = link_round true (events (some (some order)) none) now l in
          (link_round true p now' (record l' { memory = m })).memory
          ≡ record m { destination_floor = source })
call_comes_to_car source destination fd a before behind c now now' m p l vs vd sd s d w e none'
      differ r free em ser b =
    let asked : Call = record {
      current_floor = source;
      destination_floor = destination;
      fd = fd;
    } in
    (
      call_message source destination,
      floor_message source,
      request-send source destination vs vd sd,
      call_message-kind source destination,
      ap serve_call (handle_call_connection-call source destination fd c s d)
          ∙ serve-free asked a before behind c w e none' differ r free (word-ne-nil source s),
      order_arrives source now now' m p l s em ser b,
    )
