-- ===== src/Car/Floors.antt =====
-- assignment2/car.c: `floor_str_to_int`, `floor_int_to_str` and `move_floor`. The controller's
-- `floor_number` is the same conversion.
pub mod Numbers
pub mod Moves
use cab403work.Base.{ℕ, Bool, List, [], ◌∷◌, ◌==◌, if◌then◌else◌}
use cab403work.Base.Int.{ℤ, pos, negsuc, neg, incr, decr, ltb_ℤ}
use cab403work.Base.Text.{Bytes}
use cab403work.Libc.{atoi, print_ℤ, truncated}

-- `B<n>` is -n, anything else is read as it stands.
unfoldable pub floor_str_to_int : Bytes → ℤ
floor_str_to_int [] = atoi []
floor_str_to_int (c ∷ s) = if c == b'B' then neg (atoi s) else atoi (c ∷ s)

-- `snprintf` into the four bytes of a floor
unfoldable pub floor_int_to_str : ℤ → Bytes
floor_int_to_str floor_num =
    if ltb_ℤ floor_num (pos 0)
    then truncated 4 (b'B' ∷ print_ℤ (neg floor_num))
    else truncated 4 (print_ℤ floor_num)

-- The text that `move_floor` leaves in `current_floor`.
unfoldable pub move_floor : Bytes → Bytes → Bytes
move_floor current_floor destination_floor =
    let current = floor_str_to_int current_floor in
    let destination = floor_str_to_int destination_floor in
    if ltb_ℤ current destination
    then floor_int_to_str (incr current)
    else if ltb_ℤ destination current
    then floor_int_to_str (decr current)
    else current_floor
