-- ===== src/Controller/Dispatch/Selection.antt =====
-- Which car assignment2/controller.c, `select_best_car`, takes for a call.
use cab403work.Base.{
  ◌≡◌, refl, sym, ap, ◌∙◌, true, List, [], ◌∷◌, ◌++◌, arith, if_both, Option, none, some, ◌↔◌,
}
use mathlib.Core.Bool.{false≢true}
use cab403work.Base.Int.{ℤ, ◌≤ℤ◌, leb_ℤ, pos, negsuc}
use cab403work.Base.Text.{Bytes, All}
use cab403work.Controller.State.{Car, Call, floor_number}
use cab403work.Controller.Dispatch.{can_access_floors, select_best_car}

leb_ℤ_iff : (a b : ℤ) → (leb_ℤ a b ≡ true) ↔ (a ≤ℤ b)
leb_ℤ_iff (pos a) (pos b) = ground arith
leb_ℤ_iff (pos a) (negsuc b) = ground arith
leb_ℤ_iff (negsuc a) (pos b) = ground arith
leb_ℤ_iff (negsuc a) (negsuc b) = ground arith

-- The floor lies in the range of the car.
abbrev pub InRange : Car → Bytes → Type 0
InRange car floor =
    (floor_number car.lowest_floor ≤ℤ floor_number floor)
    × (floor_number floor ≤ℤ floor_number car.highest_floor)

pub can_access_floors_iff :
    (car : Car) (current destination : Bytes)
    → (can_access_floors car current destination ≡ true)
      ↔ (InRange car current × InRange car destination)
unfolding can_access_floors
can_access_floors_iff car current destination = ground (
  arith,
  leb_ℤ_iff (floor_number car.lowest_floor) (floor_number current),
  leb_ℤ_iff (floor_number current) (floor_number car.highest_floor),
  leb_ℤ_iff (floor_number car.lowest_floor) (floor_number destination),
  leb_ℤ_iff (floor_number destination) (floor_number car.highest_floor),
)

-- Both floors of the call lie in the range of the car.
abbrev pub Reaches : Call → Car → Type 0
Reaches call car = InRange car call.current_floor × InRange car call.destination_floor

-- What the answer says of the list: the first car that reaches both floors, or that there is none.
abbrev pub Selects : Call → List Car → Option Car → Type 0
Selects call cars none = All (λ car. ¬ (Reaches call car)) cars
Selects call cars (some car) =
    (before : List Car) × (behind : List Car) × (cars ≡ before ++ car ∷ behind)
    × All (λ c. ¬ (Reaches call c)) before
    × Reaches call car

-- A car that cannot take the call is passed over.
passed_over :
    (call : Call) (car : Car) (cars : List Car) (o : Option Car)
    → ¬ (Reaches call car)
    → Selects call cars o
    → Selects call (car ∷ cars) o
passed_over call car cars none no_way s = (no_way, s)
passed_over call car cars (some c) no_way (before, behind, e, all, ok) =
    (car ∷ before, behind, ap (λ l. car ∷ l) e, (no_way, all), ok)

-- The selection is the first car of the list whose range holds both floors of the call, and there
-- is none only when no car's range does.
pub select_best_car-Selects :
    (call : Call) (cars : List Car) → Selects call cars (select_best_car call cars)
unfolding select_best_car
select_best_car-Selects call [] = tt
select_best_car-Selects call (car ∷ cars) =
    let access = can_access_floors_iff car call.current_floor call.destination_floor in
    let rest = select_best_car-Selects call cars in
    if_both (Selects call (car ∷ cars))
      (can_access_floors car call.current_floor call.destination_floor)
      (λ yes'. ([], cars, refl, tt, access.0 yes'))
      (λ no'.
        passed_over call car cars (select_best_car call cars)
          (λ r. false≢true (sym no' ∙ access.1 r)) rest)
