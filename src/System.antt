-- ===== src/System.antt =====
-- One car with all the programs that share its memory: the loop and the connection thread of
-- assignment2/car.c, the panel of assignment2/internal.c, the watch of assignment2/safety.c, and
-- the sensors, which set their flags from outside. The mutex makes each of them one step.
pub mod Served
pub mod Called
pub mod Stops
pub mod Trip
use cab403work.Base.{
  length, ltb, ◌<◌, true, some, ℕ, ◌≡◌, ◌≢◌, refl, sym, ap, ◌∙◌, inl, inr, arith, Bool,
}
use mathlib.Core.Bool.{false≢true}
use cab403work.Base.Text.{Bytes}
use cab403work.Libc.{streq, streq_iff}
use cab403work.Shared.Memory.{
  SharedMem, reset_to, init_shm, reset_shm, opening, closing, closed, between,
}
use cab403work.Car.Elevator.{Env, Elevator}
use cab403work.Car.Loop.{Ret, handle, launched, launch_from, start}
use cab403work.Car.Loop.Status.{
  Follows, stays, opens, open_ends, closes, shuts, departs, handle-Follows,
}
use cab403work.Car.Loop.Motion.{IsBound, handle-IsBound}
use cab403work.Car.Connection.{Link, Polled, link_round}
use cab403work.Car.Connection.Orders.{Delivers, link_round-Delivers}
use cab403work.Internal.{operate}
use cab403work.Internal.Operations.{operate-Leaves}
use cab403work.Safety.{watch}
use cab403work.Safety.Texts.{IsStatus}
use cab403work.Safety.Checks.{watch-Watched}

abbrev pub with_memory : SharedMem → Elevator → Elevator
with_memory m e = record e { shm = m }

pub data Step (env : Env) (e : Elevator) : Elevator → Type 0 where
  car : (ret : Ret) → Step env e (handle env ret e)
  link :
      (alive : Bool) (p : Polled) (now : SharedMem) (l : Link)
      → l.memory ≡ e.shm
      → Step env e (with_memory (link_round alive p now l).memory e)
  panel : (operation : Bytes) → Step env e (with_memory (operate operation e.shm).memory e)
  safety : Step env e (with_memory (watch e.shm).memory e)
  sensors :
      (door overload : ℕ)
      → Step env e (with_memory (record e.shm { door_obstruction = door; overload = overload }) e)

pub data Reach (env : Env) (e : Elevator) : Elevator → Type 0 where
  here : Reach env e e
  then : {e' e'' : Elevator} → Reach env e e' → Step env e' e'' → Reach env e e''

-- The status is one of the five texts, and a car between two floors has somewhere to go.
pub record IsSound (e : Elevator) : Type 0 where
  pub status : IsStatus e.shm.status
  pub bound : IsBound e

handle-IsStatus : {s t : Bytes} → Follows s t → IsStatus s → IsStatus t
handle-IsStatus (stays e) h = rw e h
handle-IsStatus (opens _ e) h = ground (arith, e)
handle-IsStatus (open_ends _ e) h = ground (arith, e)
handle-IsStatus (closes _ e) h = ground (arith, e)
handle-IsStatus (shuts _ e) h = ground (arith, e)
handle-IsStatus (departs _ e) h = ground (arith, e)

same_texts :
    (m : SharedMem) (e : Elevator)
    → m.status ≡ e.shm.status
    → m.current_floor ≡ e.shm.current_floor
    → m.destination_floor ≡ e.shm.destination_floor
    → IsSound e
    → IsSound (with_memory m e)
same_texts m e s c d h = record { status = rw s h.status; bound = rw (s, c, d) h.bound }

parked :
    (m : SharedMem) (e : Elevator)
    → IsStatus m.status
    → m.status ≢ between
    → IsSound (with_memory m e)
parked m e s n = record { status = s; bound = λ b. absurd (n ((streq_iff m.status between).0 b)) }

pub opening≢between : opening ≢ between
unfolding streq
opening≢between e = false≢true ((streq_iff opening between).1 e)

closed≢between : closed ≢ between
unfolding streq
closed≢between e = false≢true ((streq_iff closed between).1 e)

link-IsSound :
    (e : Elevator) (l l' : Link)
    → l.memory ≡ e.shm
    → Delivers l l'
    → IsSound e
    → IsSound (with_memory l'.memory e)
link-IsSound e l l' s (inl (m, _)) h =
    let eq : l'.memory ≡ e.shm = m ∙ s in
    same_texts l'.memory e (ap (λ n. n.status) eq) (ap (λ n. n.current_floor) eq)
      (ap (λ n. n.destination_floor) eq) h
link-IsSound e l l' s (inr (b, _, m, _)) h =
    let eq : l'.memory.status ≡ l.memory.status = ap (λ n. n.status) m in
    parked l'.memory e (rw (eq ∙ ap (λ n. n.status) s) h.status) (λ q. b (sym eq ∙ q))

panel-IsSound :
    (e : Elevator) (operation : Bytes)
    → IsSound e
    → IsSound (with_memory (operate operation e.shm).memory e)
panel-IsSound e operation h =
    let left = operate-Leaves operation e.shm in
    elim left.destination [
      | inl kept ↦ same_texts (operate operation e.shm).memory e left.status left.floor kept h
      | inr (_, doors) ↦
          parked (operate operation e.shm).memory e (rw left.status h.status)
            (λ q. closed≢between (sym (left.status ∙ doors) ∙ q))
    ]

safety-IsSound : (e : Elevator) → IsSound e → IsSound (with_memory (watch e.shm).memory e)
safety-IsSound e h =
    let w = watch-Watched e.shm in
    elim (both_dec (e.shm.door_obstruction) e.shm.status) [
      | yes obstructed ↦
          parked (watch e.shm).memory e (inl (w.reopens obstructed))
            (λ q. opening≢between (sym (w.reopens obstructed) ∙ q))
      | no clear ↦
          same_texts (watch e.shm).memory e (w.keeps_status clear)
            (ap (λ n. n.current_floor) w.frame) (ap (λ n. n.destination_floor) w.frame) h
    ]
  where
    both_dec : (n : ℕ) (s : Bytes) → Dec ((n ≡ 1) × (s ≡ closing))
    both_dec n s = ground (arith, streq_iff s closing)

Step-IsSound : {env : Env} {e e' : Elevator} → Step env e e' → IsSound e → IsSound e'
Step-IsSound {env} {e} (car ret) h = record {
  status = handle-IsStatus (handle-Follows env ret e) h.status;
  bound = handle-IsBound env ret e h.bound;
}
Step-IsSound {env} {e} (link alive p now l s) h =
    link-IsSound e l (link_round alive p now l) s (link_round-Delivers alive p now l) h
Step-IsSound {env} {e} (panel operation) h = panel-IsSound e operation h
Step-IsSound {env} {e} safety h = safety-IsSound e h
Step-IsSound {env} {e} (sensors door overload) h =
    same_texts (record e.shm { door_obstruction = door; overload = overload }) e refl refl refl h

Reach-IsSound : {env : Env} {e e' : Elevator} → Reach env e e' → IsSound e → IsSound e'
Reach-IsSound here h = h
Reach-IsSound (then r s) h = Step-IsSound s (Reach-IsSound r h)

init_shm-fits : (floor : Bytes) → length floor < 4 → init_shm floor ≡ some (reset_to floor)
unfolding init_shm reset_shm
init_shm-fits floor h = ground arith

start-fits :
    (env : Env) (floor : Bytes)
    → length floor < 4
    → start env floor ≡ some (launched env (reset_to floor))
unfolding start
start-fits env floor h = ap (launch_from env) (init_shm-fits floor h)

-- From the start of the car, for a lowest floor of at most three bytes, in every order of rounds of
-- the car, rounds of its connection to the controller, operations of the panel, rounds of the safety
-- system and changes of the sensors: the car starts, the status stays one of the five texts, and a
-- car with the status Between has a destination that is not its floor.
pub start-IsSound :
    (env : Env) (lowest_floor : Bytes) {e : Elevator}
    → length lowest_floor < 4
    → Reach env (launched env (reset_to lowest_floor)) e
    → (start env lowest_floor ≡ some (launched env (reset_to lowest_floor))) × IsSound e
unfolding launched
start-IsSound env lowest_floor h r = (
  start-fits env lowest_floor h,
  Reach-IsSound r (record {
    status = inr (inr (inr (inl refl)));
    bound = λ b. absurd (closed≢between ((streq_iff closed between).0 b));
  }),
)
