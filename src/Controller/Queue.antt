-- ===== src/Controller/Queue.antt =====
-- assignment2/controller.c, `insert_floors_into_queue`: the stops of a call in a car's queue.
pub mod Plan
pub mod Insertion
pub mod Pointers
use cab403work.Base.{
  ℕ, zero, suc, Bool, true, false, not, ◌&&◌, ◌||◌, List, [], ◌∷◌, ◌++◌, ◌==◌, if◌then◌else◌,
  Option, none, some,
}
use cab403work.Base.Int.{ℤ, leb_ℤ, ltb_ℤ}
use cab403work.Base.Text.{Bytes, codes}
use cab403work.Libc.{streq, truncated}
use cab403work.Shared.Memory.{between}
use cab403work.Controller.State.{
  Direction, up, down, same_direction, FloorNode, Car, Call, Message, floor_number,
}

-- `curr_floor_num >= n` on the way up, `curr_floor_num <= n` on the way down.
abbrev pub reaches : Direction → ℤ → ℤ → Bool
reaches up curr_floor_num n = leb_ℤ n curr_floor_num
reaches down curr_floor_num n = leb_ℤ curr_floor_num n

-- `curr` stands at the floor of `node` or behind it.
abbrev pub past : Direction → FloorNode → FloorNode → Bool
past car_direction curr node =
    reaches car_direction (floor_number curr.floor) (floor_number node.floor)

-- The same floor and direction.
abbrev pub same_stop : FloorNode → FloorNode → Bool
same_stop curr node = streq curr.floor node.floor && same_direction curr.direction node.direction

-- What has become of `from_node`: not looked at, left out because its stop is there already, or
-- linked behind the nodes given.
pub data From : Type 0 where
  pending : From
  duplicate : From
  linked : List FloorNode → From

abbrev pub from_inserted : From → Bool
from_inserted pending = false
from_inserted duplicate = true
from_inserted (linked before) = true

-- The walk where it ends: the nodes linked up to `prev`, `from_node`, `to_inserted`, and the nodes
-- from `curr` on.
pub record Walk : Type 0 where
  pub front : List FloorNode
  pub from : From
  pub to_inserted : Bool
  pub rest : List FloorNode

module _ (car_direction : Direction) (from_node to_node : FloorNode) where
  -- The first test of a round: what becomes of `from_node` at `curr`.
  abbrev pub place_from : List FloorNode → From → FloorNode → From
  place_from front pending curr =
      if past car_direction curr from_node
      then (if same_stop curr from_node then duplicate else linked front)
      else pending
  place_from front duplicate curr = duplicate
  place_from front (linked before) curr = linked before

  -- The nodes up to `prev` after it.
  abbrev pub front_with_from : List FloorNode → From → FloorNode → List FloorNode
  front_with_from front pending curr =
      if past car_direction curr from_node
      then (if same_stop curr from_node then front else front ++ from_node ∷ [])
      else front
  front_with_from front duplicate curr = front
  front_with_from front (linked before) curr = front

  -- The loop over the nodes of the direction `car_direction`.
  unfoldable pub walk : List FloorNode → From → List FloorNode → Walk
  walk front from [] = record { front = front; from = from; to_inserted = false; rest = [] }
  walk front from (curr ∷ rest) =
      let from' = place_from front from curr in
      let front' = front_with_from front from curr in
      let on = walk (front' ++ curr ∷ []) from' rest in
      if not (same_direction curr.direction car_direction)
      then record { front = front; from = from; to_inserted = false; rest = curr ∷ rest }
      else if from_inserted from' && past car_direction curr to_node
      then record {
        front = if same_stop curr to_node then front' else front' ++ to_node ∷ [];
        from = from';
        to_inserted = true;
        rest = curr ∷ rest;
      }
      else on

  -- The queue behind the two tests after the loop. Where `to_node` has no place yet,
  -- `from_node->next` becomes `to_node`: that cuts off what stood behind a `from_node` linked
  -- earlier, and links nothing where `from_node` is in no list.
  abbrev pub finish : From → Bool → List FloorNode → List FloorNode → List FloorNode
  finish from true front rest = front ++ rest
  finish pending false front rest = front ++ from_node ∷ to_node ∷ rest
  finish duplicate false front rest = front ++ rest
  finish (linked before) false front rest = before ++ from_node ∷ to_node ∷ rest

  abbrev pub finished : Walk → List FloorNode
  finished w = finish w.from w.to_inserted w.front w.rest

  unfoldable pub insert_same_direction : List FloorNode → List FloorNode
  unfolding walk
  insert_same_direction queue = finished (walk [] pending queue)

-- Against the direction of the car both stops go to the end.
abbrev pub insert_other_direction : FloorNode → FloorNode → List FloorNode → List FloorNode
insert_other_direction from_node to_node queue = queue ++ from_node ∷ to_node ∷ []

abbrev pub direction_to : ℤ → ℤ → Direction
direction_to from to = if ltb_ℤ from to then up else down

abbrev pub head_floor : List FloorNode → Bytes → Bytes
head_floor [] default = default
head_floor (node ∷ queue) default = node.floor

abbrev pub queue_direction : Bytes → List FloorNode → Direction → Direction
queue_direction current_floor [] call_direction = call_direction
queue_direction current_floor (node ∷ queue) call_direction =
    direction_to (floor_number current_floor) (floor_number node.floor)

-- The direction that the car is taken to move in.
unfoldable pub car_direction : Car → Direction → Direction
car_direction car call_direction =
    if streq car.status between
    then direction_to (floor_number car.current_floor) (floor_number car.destination_floor)
    else queue_direction car.current_floor car.floor_queue call_direction

-- "FLOOR <floor>" in a buffer of ten bytes.
abbrev pub floor_message : Bytes → Bytes
floor_message floor = truncated 10 (codes "FLOOR " ++ floor)

-- The new first stop, if there is one: whether the car is told of it.
unfoldable pub announce : Car → List FloorNode → List Message
announce car [] = []
announce car (node ∷ queue) =
    if not (streq (head_floor car.floor_queue []) node.floor) || streq car.current_floor node.floor
    then record { to = car.fd; text = floor_message node.floor } ∷ []
    else []

abbrev pub stop : Direction → Bytes → FloorNode
stop direction floor = record { direction = direction; floor = floor }

-- The new queue.
unfoldable pub new_queue : Car → Call → Direction → List FloorNode
unfolding insert_same_direction car_direction
new_queue car call call_direction =
    let from_node = stop call_direction call.current_floor in
    let to_node = stop call_direction call.destination_floor in
    if same_direction (car_direction car call_direction) call_direction
    then insert_same_direction call_direction from_node to_node car.floor_queue
    else insert_other_direction from_node to_node car.floor_queue

unfoldable pub insert_floors_into_queue : Car → Call → Direction → Car × List Message
unfolding new_queue announce
insert_floors_into_queue car call call_direction =
    let queue = new_queue car call call_direction in
    (record car { floor_queue = queue }, announce car queue)
