-- ===== src/Tests/Links.antt =====
-- Messages of assignment2 on their way: shared.h, call.c, the connection of car.c, the texts that
-- controller.c reads, and the monitor threads.
use cab403work.Base.{◌≡◌, refl, arith, List, [], ◌∷◌, ◌++◌, some}
use cab403work.Base.Text.{Bytes, codes}
use cab403work.Libc.Words.{IsWord}
use cab403work.Shared.Wire.{Outcome, bytes, sent, message, send_message, receive_msg}
use cab403work.Shared.Wire.Delivery.{receive_msg-send_message}
use cab403work.Car.Connection.{greeting}
use cab403work.Controller.Messages.{scan_car}
use cab403work.Controller.Messages.RoundTrip.{scan_car-greeting}

-- Calls that move one byte at a time.
abbrev slowly : List Outcome
slowly = bytes 1 ∷ bytes 1 ∷ bytes 1 ∷ bytes 1 ∷ bytes 1 ∷ bytes 1 ∷ bytes 1 ∷ bytes 1 ∷ []

receive_msg-send_message_example :
    (out : Bytes) × (os' : List Outcome) × (us' : List Outcome) × (send_message
        (codes "FLOO")
        slowly
      ≡ sent out os')
    × (receive_msg 0 (out ++ codes "R") slowly ≡ message (codes "FLOO") (codes "R") us')
receive_msg-send_message_example =
    receive_msg-send_message 0 (codes "FLOO") (codes "R") slowly slowly (omega arith) (ground arith)
      (ground arith) (omega arith) (omega arith)

one_letter-IsWord : IsWord 3 (codes "3")
one_letter-IsWord = ((refl, tt), omega arith, omega arith)

long_name-IsWord : IsWord 99 (codes "Alpha")
long_name-IsWord = ((refl, (refl, (refl, (refl, (refl, tt))))), omega arith, omega arith)

scan_car-greeting_example :
    scan_car (greeting (codes "Alpha") (codes "3") (codes "3"))
    ≡ some (codes "Alpha", codes "3", codes "3")
scan_car-greeting_example =
    scan_car-greeting (codes "Alpha") (codes "3") (codes "3") long_name-IsWord one_letter-IsWord
      one_letter-IsWord
