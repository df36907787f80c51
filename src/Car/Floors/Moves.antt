-- ===== src/Car/Floors/Moves.antt =====
-- What `move_floor` does to the number of the floor.
use cab403work.Base.{◌-◌, ◌≡◌, refl, false, Bool-cases, inl, inr, arith, if◌then◌else◌}
use cab403work.Base.Int.{
  ℤ, pos, negsuc, incr, decr, gap, ltb_ℤ, ◌≤ℤ◌, ltb_ℤ→<, ltb_ℤ→≤, <→ltb_ℤ, incr_parts, decr_parts,
}
use cab403work.Base.Text.{Bytes, codes}
use cab403work.Libc.{print_ℤ}
use cab403work.Shared.Floors.{validate_floor_input}
use cab403work.Car.Floors.{floor_str_to_int, floor_int_to_str, move_floor}
use cab403work.Car.Floors.Numbers.{IsFloorNumber, floor_str_to_int-floor_int_to_str}

-- The number one nearer to `b`.
abbrev pub step_towards : ℤ → ℤ → ℤ
step_towards a b = if ltb_ℤ a b then incr a else if ltb_ℤ b a then decr a else a

pub floor_str_to_int-move_floor :
    (current destination : Bytes)
    → IsFloorNumber (floor_str_to_int current)
    → IsFloorNumber (floor_str_to_int destination)
    → floor_str_to_int (move_floor current destination)
      ≡ step_towards (floor_str_to_int current) (floor_str_to_int destination)
unfolding move_floor
floor_str_to_int-move_floor current destination c d =
    let a = floor_str_to_int current in
    let b = floor_str_to_int destination in
    elim (Bool-cases (ltb_ℤ a b)) [
      | inl up ↦
          rw up (
            floor_str_to_int-floor_int_to_str (incr a)
              (omega (arith, incr_parts a, ltb_ℤ→< a b up)))
      | inr level ↦ elim (Bool-cases (ltb_ℤ b a)) [
        | inl down ↦
            rw (level, down)
              (floor_str_to_int-floor_int_to_str (decr a)
                (omega (arith, decr_parts a, ltb_ℤ→< b a down)))
        | inr same ↦ rw (level, same)
      ]
    ]

gap-step_towards : (a b : ℤ) → gap (step_towards a b) b ≡ gap a b - 1
gap-step_towards a b =
    ground (arith, incr_parts a, decr_parts a, ltb_ℤ→< a b, ltb_ℤ→< b a, ltb_ℤ→≤ a b, ltb_ℤ→≤ b a)

-- For a floor and a destination whose numbers are from -99 to 999, a move lowers the distance in
-- floor numbers by one, down to 0.
pub gap-move_floor :
    (current destination : Bytes)
    → IsFloorNumber (floor_str_to_int current)
    → IsFloorNumber (floor_str_to_int destination)
    → gap (floor_str_to_int (move_floor current destination)) (floor_str_to_int destination)
      ≡ gap (floor_str_to_int current) (floor_str_to_int destination) - 1
unfolding move_floor
gap-move_floor current destination c d =
    rw (floor_str_to_int-move_floor current destination c d)
      (gap-step_towards (floor_str_to_int current) (floor_str_to_int destination))

-- A move from a floor with the number -1 to a destination with a number of at least 0 leads to the
-- text "0", which the floor check of the call pad rejects.
move_floor-from_basement :
    (current destination : Bytes)
    → floor_str_to_int current ≡ negsuc 0
    → pos 0 ≤ℤ floor_str_to_int destination
    → (move_floor current destination ≡ codes "0")
      × (validate_floor_input (move_floor current destination) ≡ false)
unfolding move_floor floor_int_to_str print_ℤ validate_floor_input
move_floor-from_basement current destination c d =
    rw (c, <→ltb_ℤ (negsuc 0) (floor_str_to_int destination) (omega arith)) (refl, refl)
