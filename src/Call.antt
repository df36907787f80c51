-- ===== src/Call.antt =====
-- assignment2/call.c: the call pad. What a run asks of the controller, and what it prints.
pub mod Texts
use cab403work.Base.{
  ℕ, Bool, true, false, not, List, [], ◌∷◌, ◌++◌, ◌==◌, if◌then◌else◌, drop, length, Option, none,
  some,
}
use cab403work.Base.Text.{Bytes, codes}
use cab403work.Libc.{streq, truncated}
use cab403work.Shared.Floors.{validate_floor_input}

-- The ends of a run before it connects, or the text that it sends.
pub data Request : Type 0 where
  usage invalid_floors same_floor : Request
  send : Bytes → Request

-- "CALL <source> <destination>" in a buffer of 15 bytes.
unfoldable pub call_message : Bytes → Bytes → Bytes
call_message source destination =
    truncated 15 (codes "CALL " ++ (source ++ (codes " " ++ destination)))

-- The checks in the order of `main`, on the arguments behind the program's name.
unfoldable pub request : List Bytes → Request
unfolding call_message
request (source ∷ destination ∷ []) =
    if not (validate_floor_input source)
    then invalid_floors
    else if not (validate_floor_input destination)
    then invalid_floors
    else if streq source destination
    then same_floor
    else send (call_message source destination)
request arguments = usage

-- The lines printed on the controller's answer; none ends the run with an error.
pub data Answer : Type 0 where
  arriving : Bytes → Answer
  no_car receive_error : Answer

unfoldable pub read_answer : Bytes → Answer
read_answer [] = receive_error
read_answer (c ∷ text) = if c == b'C' then arriving (drop 4 (c ∷ text)) else no_car
