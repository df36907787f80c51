-- ===== src/Car/Loop/Travel.antt =====
-- A car in normal mode with no button pressed and nothing but timeouts: assignment2/car.c,
-- `elevator_loop`, from the start of a move to the open doors at the destination and back.
use cab403work.Base.{
  ℕ, zero, suc, ◌≡◌, ◌≢◌, refl, ap, ◌∙◌, inl, inr, false, Bool-cases, if◌then◌else◌, arith,
}
use cab403work.Base.Int.{
  ℤ, gap, eq_of_parts, ltb_ℤ, ltb_ℤ→<, ltb_ℤ→≤, incr_parts, decr_parts, pos_part, neg_part,
}
use cab403work.Base.Text.{Bytes}
use cab403work.Libc.{streq, streq_iff, streq_refl}
use cab403work.Shared.Memory.{SharedMem, opening, closed, between}
use cab403work.Car.Floors.{floor_str_to_int, floor_int_to_str, move_floor}
use cab403work.Car.Floors.Numbers.{IsFloorNumber}
use cab403work.Car.Floors.Moves.{gap-move_floor, step_towards, floor_str_to_int-move_floor}
use cab403work.Car.Elevator.{Env, Elevator}
use cab403work.Car.Normal.{normal_timed_out}
use cab403work.Car.Loop.{timed_out, handle}

-- `n` rounds that end by a timeout, with the shared memory left alone between them.
unfoldable pub timeouts : Env → ℕ → Elevator → Elevator
timeouts env zero e = e
timeouts env (suc n) e = timeouts env n (handle env timed_out e)

-- Normal mode, and no button pressed.
pub record IsQuiet (m : SharedMem) : Type 0 where
  pub calm : m.emergency_mode ≡ 0
  pub normal : m.individual_service_mode ≡ 0
  pub no_open : m.open_button ≡ 0
  pub no_close : m.close_button ≡ 0

-- The memory after a timeout between two floors.
after_move : SharedMem → SharedMem
after_move m =
    let floor = move_floor m.current_floor m.destination_floor in
    record m {
      current_floor = floor;
      status = if streq floor m.destination_floor then opening else between;
    }

handle-between :
    (env : Env) (e : Elevator)
    → IsQuiet e.shm
    → e.shm.status ≡ between
    → (handle env timed_out e).shm ≡ after_move e.shm
unfolding handle normal_timed_out after_move
handle-between env e q b = ground (arith, streq_iff e.shm.status between)

move_floor-text :
    (current destination : Bytes)
    → floor_str_to_int current ≢ floor_str_to_int destination
    → move_floor current destination
      ≡ floor_int_to_str (step_towards (floor_str_to_int current) (floor_str_to_int destination))
unfolding move_floor
move_floor-text current destination h =
    let a = floor_str_to_int current in
    let b = floor_str_to_int destination in
    elim (Bool-cases (ltb_ℤ a b)) [
      | inl up ↦ rw up
      | inr level ↦ elim (Bool-cases (ltb_ℤ b a)) [
        | inl down ↦ rw (level, down)
        | inr same ↦
            absurd (h (eq_of_parts a b (omega (arith, ltb_ℤ→≤ a b level, ltb_ℤ→≤ b a same))))
      ]
    ]

step_towards-IsFloorNumber :
    (a b : ℤ) → IsFloorNumber a → IsFloorNumber b → IsFloorNumber (step_towards a b)
step_towards-IsFloorNumber a b p q =
    ground (arith, incr_parts a, decr_parts a, ltb_ℤ→< a b, ltb_ℤ→< b a, ltb_ℤ→≤ a b)

-- A quiet car in front of or between floors, `n` floors away from `d`.
record IsUnderway (d : Bytes) (n : ℕ) (m : SharedMem) : Type 0 where
  quiet : IsQuiet m
  to : m.destination_floor ≡ d
  on_floor : IsFloorNumber (floor_str_to_int m.current_floor)
  away : gap (floor_str_to_int m.current_floor) (floor_str_to_int d) ≡ n

-- A floor text as `floor_int_to_str` writes it, from B99 to 999.
abbrev pub IsFloorText : Bytes → Type 0
IsFloorText d = (floor_int_to_str (floor_str_to_int d) ≡ d) × IsFloorNumber (floor_str_to_int d)

-- The doors open at `d`, where the car was sent.
pub record HasArrived (d : Bytes) (m : SharedMem) : Type 0 where
  pub quiet : IsQuiet m
  pub at : m.current_floor ≡ d
  pub to : m.destination_floor ≡ d
  pub doors : m.status ≡ opening

away-differs :
    (n : ℕ) (m : SharedMem)
    → gap (floor_str_to_int m.current_floor) (floor_str_to_int m.destination_floor) ≡ suc n
    → streq m.current_floor m.destination_floor ≡ false
away-differs n m away = elim (Bool-cases (streq m.current_floor m.destination_floor)) [
  | inr differs ↦ differs
  | inl same ↦
      let e = ap floor_str_to_int ((streq_iff m.current_floor m.destination_floor).0 same) in
      absurd (omega (arith, away, ap pos_part e, ap neg_part e))
]

departure :
    (env : Env) (e : Elevator)
    → IsQuiet e.shm
    → e.shm.status ≡ closed
    → streq e.shm.current_floor e.shm.destination_floor ≡ false
    → (handle env timed_out e).shm ≡ record e.shm { status = between }
unfolding handle normal_timed_out streq
departure env e q c h =
    ground (arith, streq_iff e.shm.status closed, streq_iff e.shm.status between)

module _ (d : Bytes) (target : IsFloorText d) where
  after_move-IsUnderway :
      (n : ℕ) (m : SharedMem) → IsUnderway d (suc n) m → IsUnderway d n (after_move m)
  unfolding after_move
  after_move-IsUnderway n m u =
      let near = floor_str_to_int-move_floor m.current_floor d u.on_floor target.1 in
      record {
        quiet = ground arith;
        to = u.to;
        on_floor =
            rw (u.to, near)
              (step_towards-IsFloorNumber (floor_str_to_int m.current_floor) (floor_str_to_int d)
                u.on_floor target.1);
        away =
            rw u.to (omega (arith, gap-move_floor m.current_floor d u.on_floor target.1, u.away));
      }

  -- The last move ends at the destination's text, an earlier one does not.
  last_move : (m : SharedMem) → IsUnderway d 1 m → move_floor m.current_floor d ≡ d
  last_move m u =
      let a = floor_str_to_int m.current_floor in
      let b = floor_str_to_int d in
      let near = floor_str_to_int-move_floor m.current_floor d u.on_floor target.1 in
      let there : step_towards a b ≡ b = eq_of_parts (step_towards a b) b (
        omega (
          arith,
          gap-move_floor m.current_floor d u.on_floor target.1,
          u.away,
          ap pos_part near,
          ap neg_part near,
        )) in
      move_floor-text m.current_floor d
        (λ e. absurd (omega (arith, u.away, ap pos_part e, ap neg_part e)))
      ∙ ap floor_int_to_str there
      ∙ target.0

  earlier_move :
      (n : ℕ) (m : SharedMem)
      → IsUnderway d (suc (suc n)) m
      → streq (move_floor m.current_floor d) d ≡ false
  earlier_move n m u = elim (Bool-cases (streq (move_floor m.current_floor d) d)) [
    | inr differs ↦ differs
    | inl same ↦
        let e = ap floor_str_to_int ((streq_iff (move_floor m.current_floor d) d).0 same) in
        absurd (
          omega (
            arith,
            gap-move_floor m.current_floor d u.on_floor target.1,
            u.away,
            ap pos_part e,
            ap neg_part e,
          ))
  ]

  first_stop : (m : SharedMem) → IsUnderway d 1 m → HasArrived d (after_move m)
  unfolding after_move
  first_stop m u = record {
    quiet = ground arith;
    at = rw u.to (last_move m u);
    to = u.to;
    doors = rw (u.to, last_move m u, streq_refl d);
  }

  still_between :
      (n : ℕ) (m : SharedMem) → IsUnderway d (suc (suc n)) m → (after_move m).status ≡ between
  unfolding after_move
  still_between n m u = rw (u.to, earlier_move n m u)

  -- From a start between floors, `n + 1` floors away, the doors open at the destination after
  -- `n + 1` timeouts.
  arrival :
      (env : Env) (n : ℕ) (e : Elevator)
      → IsUnderway d (suc n) e.shm
      → e.shm.status ≡ between
      → HasArrived d (timeouts env (suc n) e).shm
  unfolding timeouts
  arrival env zero e u b = rw (handle-between env e u.quiet b) (first_stop e.shm u)
  arrival env (suc n) e u b =
      let step = handle-between env e u.quiet b in
      arrival env n (handle env timed_out e) (rw step (after_move-IsUnderway (suc n) e.shm u))
        (rw step (still_between n e.shm u))

-- For a closed car in normal mode with no button pressed, on a floor from B99 to 999 and `n + 1`
-- floors away from a destination in that range whose text is as `floor_int_to_str` writes it:
-- after `n + 2` timeouts, with the memory left alone between them, the car is at the destination
-- with the status Opening.
pub travel :
    (env : Env) (n : ℕ) (e : Elevator)
    → IsQuiet e.shm
    → e.shm.status ≡ closed
    → IsFloorNumber (floor_str_to_int e.shm.current_floor)
    → IsFloorText e.shm.destination_floor
    → gap (floor_str_to_int e.shm.current_floor) (floor_str_to_int e.shm.destination_floor) ≡ suc n
    → HasArrived e.shm.destination_floor (timeouts env (suc (suc n)) e).shm
unfolding timeouts
travel env n e q c on target away =
    let start = departure env e q c (away-differs n e.shm away) in
    arrival e.shm.destination_floor target env n (handle env timed_out e)
      (rw start (record { quiet = ground arith; to = refl; on_floor = on; away = away })) (rw start)

-- For a car in normal mode with no button pressed that is at its destination with the status
-- Opening: after three timeouts the status is Closed and the rest of the memory is as before.
doors_cycle :
    (env : Env) (d : Bytes) (e : Elevator)
    → HasArrived d e.shm
    → (timeouts env 3 e).shm ≡ record e.shm { status = closed }
unfolding timeouts handle normal_timed_out streq
doors_cycle env d e h = ground (arith, streq_iff e.shm.status opening, streq_refl d)

-- With a destination elsewhere the car departs as the doors are shut.
doors_then_departure :
    (env : Env) (e : Elevator)
    → IsQuiet e.shm
    → e.shm.status ≡ opening
    → streq e.shm.current_floor e.shm.destination_floor ≡ false
    → (timeouts env 3 e).shm ≡ record e.shm { status = between }
unfolding timeouts handle normal_timed_out streq
doors_then_departure env e q o h = ground (arith, streq_iff e.shm.status opening)

-- A quiet car with the status Opening, `n + 1` floors away from its destination, both floors from
-- B99 to 999, opens at the destination after `n + 4` timeouts.
pub travel_on :
    (env : Env) (n : ℕ) (e : Elevator)
    → IsQuiet e.shm
    → e.shm.status ≡ opening
    → IsFloorNumber (floor_str_to_int e.shm.current_floor)
    → IsFloorText e.shm.destination_floor
    → gap (floor_str_to_int e.shm.current_floor) (floor_str_to_int e.shm.destination_floor) ≡ suc n
    → HasArrived e.shm.destination_floor (timeouts env (suc (suc (suc (suc n)))) e).shm
unfolding timeouts
travel_on env n e q o on target away =
    let shut = doors_then_departure env e q o (away-differs n e.shm away) in
    arrival e.shm.destination_floor target env n (timeouts env 3 e)
      (rw shut (record { quiet = ground arith; to = refl; on_floor = on; away = away })) (rw shut)
