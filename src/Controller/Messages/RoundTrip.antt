-- ===== src/Controller/Messages/RoundTrip.antt =====
-- The messages that assignment2/call.c and assignment2/car.c send, as assignment2/controller.c
-- reads them.
use cab403work.Base.{take-all, ◌≡◌, refl, ◌++◌, arith, length-append, some}
use cab403work.Base.Text.{Bytes, codes}
use cab403work.Libc.{scan_literal}
use cab403work.Libc.Words.{IsWord, scan_word-space, scan_word-last}
use cab403work.Shared.Memory.{SharedMem}
use cab403work.Car.Connection.{status_message, greeting}
use cab403work.Call.{call_message}
use cab403work.Controller.Messages.{scan_call, scan_car, scan_status}

-- The controller reads from a call the two floors that the call pad wrote, for words of at most
-- three bytes.
pub scan_call-call_message :
    (source destination : Bytes)
    → IsWord 3 source
    → IsWord 3 destination
    → scan_call (call_message source destination) ≡ some (source, destination)
unfolding scan_call call_message scan_literal
scan_call-call_message source destination s d = rw (
  take-all 9 (source ++ (codes " " ++ destination))
      (omega (arith, length-append source (codes " " ++ destination))),
  scan_word-space 3 source (codes " " ++ destination) s refl,
  scan_word-last 3 destination d,
)

-- The controller reads from a greeting the name and the two bounds that the car wrote, for a name
-- of at most 99 bytes and bounds of at most three, none with a space.
pub scan_car-greeting :
    (name lowest_floor highest_floor : Bytes)
    → IsWord 99 name
    → IsWord 3 lowest_floor
    → IsWord 3 highest_floor
    → scan_car (greeting name lowest_floor highest_floor) ≡ some (name, lowest_floor, highest_floor)
unfolding scan_car greeting scan_literal
scan_car-greeting name lowest_floor highest_floor n l h =
    let tail = codes " " ++ (lowest_floor ++ (codes " " ++ highest_floor)) in
    rw (
      take-all 251 (name ++ tail) (
          omega (
            arith,
            length-append name tail,
            length-append lowest_floor (codes " " ++ highest_floor),
          )),
      scan_word-space 255 name tail (n.0, n.1, omega arith) refl,
      scan_word-space 3 lowest_floor (codes " " ++ highest_floor) l refl,
      scan_word-last 3 highest_floor h,
    )

-- The controller reads from a status message the status and the floors that the car wrote, for a
-- status of at most seven bytes and floors of at most three, none of them empty or with a space.
pub scan_status-status_message :
    (m : SharedMem)
    → IsWord 7 m.status
    → IsWord 3 m.current_floor
    → IsWord 3 m.destination_floor
    → scan_status (status_message m) ≡ some (m.status, m.current_floor, m.destination_floor)
unfolding scan_status status_message scan_literal
scan_status-status_message m s c d =
    let tail = codes " " ++ (m.current_floor ++ (codes " " ++ m.destination_floor)) in
    rw (
      take-all 248 (m.status ++ tail) (
          omega (
            arith,
            length-append m.status tail,
            length-append m.current_floor (codes " " ++ m.destination_floor),
          )),
      scan_word-space 7 m.status tail s refl,
      scan_word-space 3 m.current_floor (codes " " ++ m.destination_floor) c refl,
      scan_word-last 3 m.destination_floor d,
    )
