-- ===== src/Controller/Connections/Updates.antt =====
-- What the threads of assignment2/controller.c do to the cars and their queues.
use cab403work.Base.{
  ℕ, ◌≡◌, ◌≢◌, refl, sym, ◌∙◌, ◌⊎◌, inl, inr, List, [], ◌∷◌, ◌++◌, arith, Option, none, some, Bool,
  Bool-cases, true, false, ◌&&◌, if_both, ==_iff, Option-cases,
}
use mathlib.Core.Bool.{false≢true}
use cab403work.Base.Text.{Bytes}
use cab403work.Libc.{streq, streq_iff, truncated}
use cab403work.Shared.Memory.{opening}
use cab403work.Controller.State.{FloorNode, Car, Message, Controller}
use cab403work.Controller.Messages.{scan_car, scan_status}
use cab403work.Controller.Queue.{floor_message}
use cab403work.Controller.Dispatch.{find_car}
use cab403work.Controller.Connections.{
  new_car, register_car, complete_floor, next_stop, head_done, update_car, remove_car, store_update,
  status_round, end_connection, car_connection,
}

-- The first stop of the queue is on the floor.
abbrev pub HeadAt : Bytes → List FloorNode → Type 0
HeadAt floor [] = ⊥
HeadAt floor (node ∷ queue) = node.floor ≡ floor

-- The stops that go from the front of the queue: the head, and the next one where it is on the same
-- floor.
pub data Completes (floor : Bytes) : List FloorNode → List FloorNode → Type 0 where
  head_goes :
      (node : FloorNode) (queue : List FloorNode)
      → node.floor ≡ floor
      → ¬ (HeadAt floor queue)
      → Completes floor (node ∷ queue) queue
  two_go :
      (node next : FloorNode) (queue : List FloorNode)
      → node.floor ≡ floor
      → next.floor ≡ floor
      → Completes floor (node ∷ next ∷ queue) queue

-- The car opens its doors at its destination, where its first stop is.
abbrev pub Arrives : Car → List FloorNode → Type 0
Arrives car queue =
    (car.status ≡ opening)
    × (car.current_floor ≡ car.destination_floor)
    × HeadAt car.current_floor queue

-- What a car is told: to go to the first of its stops.
abbrev pub told_of : ℕ → List FloorNode → List Message
told_of fd [] = []
told_of fd (node ∷ queue) = record { to = fd; text = floor_message node.floor } ∷ []

pub record Updated (m : Bytes × Bytes × Bytes) (old : Car) (r : Car × List Message) : Type 0 where
  pub status : r.0.status ≡ truncated 8 m.0
  pub floors : (r.0.current_floor ≡ truncated 4 m.1) × (r.0.destination_floor ≡ truncated 4 m.2)
  pub identity :
      (r.0.fd ≡ old.fd)
      × (r.0.name ≡ old.name)
      × (r.0.lowest_floor ≡ old.lowest_floor)
      × (r.0.highest_floor ≡ old.highest_floor)
  pub queue :
      (¬ (Arrives r.0 old.floor_queue) × (r.0.floor_queue ≡ old.floor_queue) × (r.1 ≡ []))
      ⊎ (Arrives r.0 old.floor_queue
          × Completes r.0.current_floor old.floor_queue r.0.floor_queue
          × (r.1 ≡ told_of old.fd r.0.floor_queue))

no_more : (floor : Bytes) (next : FloorNode) → streq next.floor floor ≡ false → next.floor ≢ floor
no_more floor next h e = absurd (false≢true (sym h ∙ (streq_iff next.floor floor).1 e))

complete_floor-Completes :
    (floor : Bytes) (queue : List FloorNode)
    → head_done floor queue ≡ true
    → HeadAt floor queue × Completes floor queue (complete_floor floor queue)
unfolding complete_floor
complete_floor-Completes floor [] h = absurd (false≢true h)
complete_floor-Completes floor (node ∷ []) h =
    let here = (streq_iff node.floor floor).0 h in (here, rw h (head_goes node [] here (λ e. e)))
complete_floor-Completes floor (node ∷ next ∷ queue) h =
    let here = (streq_iff node.floor floor).0 h in
    elim (Bool-cases (streq next.floor floor)) [
      | inl same ↦
          (here, rw (h, same) (two_go node next queue here ((streq_iff next.floor floor).0 same)))
      | inr other ↦
          (here, rw (h, other) (head_goes node (next ∷ queue) here (no_more floor next other)))
    ]

head_done-at :
    (floor : Bytes) (queue : List FloorNode) → HeadAt floor queue → head_done floor queue ≡ true
head_done-at floor [] h = absurd h
head_done-at floor (node ∷ queue) h = (streq_iff node.floor floor).1 h

next_stop-told_of : (fd : ℕ) (queue : List FloorNode) → next_stop fd queue ≡ told_of fd queue
next_stop-told_of fd [] = refl
next_stop-told_of fd (node ∷ queue) = refl

and_parts : (a b c : Bool) → (a && b && c) ≡ true → (a ≡ true) × (b ≡ true) × (c ≡ true)
and_parts a b c h = ground arith

and_all : (a b c : Bool) → a ≡ true → b ≡ true → c ≡ true → (a && b && c) ≡ true
and_all a b c h k l = ground arith

-- After a status update the car has the new status and floors and keeps its name and range. If it
-- opens its doors at its destination and its first stop is there, this stop goes, the next one goes
-- with it exactly where it is on the same floor, and the car is told of the stop that is then
-- first, if there is one; otherwise its queue is kept and nothing is sent.
pub update_car-Updated : (m : Bytes × Bytes × Bytes) (old : Car) → Updated m old (update_car m old)
unfolding update_car
update_car-Updated (status, current_floor, destination_floor) old =
    let here = truncated 4 current_floor in
    let there = truncated 4 destination_floor in
    if_both (Updated (status, current_floor, destination_floor) old) _
      (λ h.
        let (opens, arrived, at_head) =
          and_parts (streq (truncated 8 status) opening) (streq here there)
            (head_done here old.floor_queue) h in
        let (first, gone) = complete_floor-Completes here old.floor_queue at_head in
        record {
          status = refl;
          floors = (refl, refl);
          identity = (refl, refl, refl, refl);
          queue = inr (
            (
              (streq_iff (truncated 8 status) opening).0 opens,
              (streq_iff here there).0 arrived,
              first,
            ),
            gone,
            next_stop-told_of old.fd (complete_floor here old.floor_queue),
          );
        })
      (λ h. record {
        status = refl;
        floors = (refl, refl);
        identity = (refl, refl, refl, refl);
        queue = inl (
          λ (opens, arrived, first). false≢true (
              sym h
              ∙ and_all (streq (truncated 8 status) opening) (streq here there)
                  (head_done here old.floor_queue)
                  ((streq_iff (truncated 8 status) opening).1 opens)
                  ((streq_iff here there).1 arrived) (head_done-at here old.floor_queue first)),
          refl,
          refl,
        );
      })

register_car-some :
    (fd : ℕ) (initial_message text : Bytes) (g s : Bytes × Bytes × Bytes) (c : Controller)
    → scan_car initial_message ≡ some g
    → scan_status text ≡ some s
    → register_car fd initial_message (some text) c ≡ record c { cars = new_car fd g s ∷ c.cars }
unfolding register_car
register_car-some fd initial_message text g s c h k = simp (h, k)

-- For a greeting and a status that scan, removing the car that was just registered leaves the list
-- of cars as it was.
remove_car-register_car :
    (fd : ℕ) (initial_message text : Bytes) (g s : Bytes × Bytes × Bytes) (c : Controller)
    → scan_car initial_message ≡ some g
    → scan_status text ≡ some s
    → remove_car fd (register_car fd initial_message (some text) c).cars ≡ c.cars
unfolding remove_car new_car
remove_car-register_car fd initial_message text g s c h k =
    rw (register_car-some fd initial_message text g s c h k, (==_iff fd fd).1 refl)

store_update-closed :
    (status : Bytes × Bytes × Bytes) (o : Option Car) (c : Controller)
    → (store_update status o c).closed ≡ c.closed
store_update-closed status none c = refl
store_update-closed status (some car) c = refl

status_round-some :
    (fd : ℕ) (text : Bytes) (c : Controller)
    → (status_round fd (some text) true c ≡ (c, true, false))
      ⊎ ((c' : Controller) × (status_round fd (some text) true c ≡ (c', true, true))
          × (c'.closed ≡ c.closed))
unfolding status_round
status_round-some fd text c = elim (Option-cases (scan_status text)) [
  | inl e ↦ inl (rw e)
  | inr (status, e) ↦ inr (
    store_update status (find_car fd c.cars) c,
    rw e refl,
    store_update-closed status (find_car fd c.cars) c,
  )
]

-- On every sequence of received texts, the loop of a connected car closes its descriptor once or,
-- while it waits for more, not at all, and closes no other.
car_connection-closed :
    (fd : ℕ) (texts : List (Option Bytes)) (c : Controller)
    → ((car_connection fd texts true c).closed ≡ c.closed)
      ⊎ ((car_connection fd texts true c).closed ≡ c.closed ++ fd ∷ [])
unfolding car_connection
car_connection-closed fd [] c = inl refl
car_connection-closed fd (none ∷ texts) c = inr (unfold status_round end_connection in refl)
car_connection-closed fd (some text ∷ texts) c = elim (status_round-some fd text c) [
  | inl e ↦ inr (rw e (unfold end_connection in refl))
  | inr (c', e, same) ↦ rw (e, ← same) (car_connection-closed fd texts c')
]
