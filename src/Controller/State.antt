-- ===== src/Controller/State.antt =====
-- assignment2/controller.c: the lists of cars and calls. A linked list is the list of its nodes,
-- from the head on; a car is known by the descriptor of its connection.
use cab403work.Base.{ℕ, Bool, true, false, List, [], ◌∷◌, ◌==◌, if◌then◌else◌}
use cab403work.Base.Int.{ℤ, neg}
use cab403work.Base.Text.{Bytes}
use cab403work.Libc.{atoi}

-- The bytes 'U' and 'D' of `direction`.
pub data Direction : Type 0 where
  up down : Direction

abbrev pub same_direction : Direction → Direction → Bool
same_direction up up = true
same_direction down down = true
same_direction up down = false
same_direction down up = false

pub record FloorNode : Type 0 where
  pub direction : Direction
  pub floor : Bytes

-- `floor_queue` is the list behind `floor_queue_head`.
pub record Car : Type 0 where
  pub fd : ℕ
  pub name : Bytes
  pub lowest_floor : Bytes
  pub highest_floor : Bytes
  pub current_floor : Bytes
  pub destination_floor : Bytes
  pub status : Bytes
  pub floor_queue : List FloorNode

pub record Call : Type 0 where
  pub current_floor : Bytes
  pub destination_floor : Bytes
  pub fd : ℕ

-- A text sent over a connection.
pub record Message : Type 0 where
  pub to : ℕ
  pub text : Bytes

-- `car_list_head`, `call_queue_head`, the messages sent so far and the descriptors closed.
pub record Controller : Type 0 where
  pub cars : List Car
  pub calls : List Call
  pub messages : List Message
  pub closed : List ℕ

unfoldable pub floor_number : Bytes → ℤ
floor_number [] = atoi []
floor_number (c ∷ s) = if c == b'B' then neg (atoi s) else atoi (c ∷ s)
