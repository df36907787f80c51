-- ===== src/Safety.antt =====
-- assignment2/safety.c: the process that watches the shared memory of a car.
pub mod Texts
pub mod Checks
use cab403work.Base.{
  ℕ, zero, suc, ◌-◌, Bool, true, false, not, ◌&&◌, ◌||◌, List, [], ◌∷◌, ◌++◌, ltb, leb, ◌==◌,
  if◌then◌else◌,
}
use cab403work.Base.Text.{Bytes, codes}
use cab403work.Libc.{is_digit}
use cab403work.Shared.Memory.{SharedMem, opening, opened, closing, closed, between}

-- The character loops walk along a text; the text at an index is what is left of it, and its end
-- is the NUL. The first argument of a loop counts down what its bound leaves.

-- `while (floor[len] != '\0' && len < MAX_FLOOR_LENGTH) len++`
scan_length : ℕ → Bytes → ℕ
scan_length room [] = 0
scan_length zero (c ∷ s) = 0
scan_length (suc room) (c ∷ s) = suc (scan_length room s)

-- The `for` loop from `index` to `len`, over the bytes there.
digits_up_to : ℕ → Bytes → Bool
digits_up_to zero s = true
digits_up_to (suc k) [] = false
digits_up_to (suc k) (c ∷ s) = is_digit c && digits_up_to k s

-- The checks behind the one of the length.
floor_bytes : ℕ → Bytes → Bool
floor_bytes len [] = digits_up_to len []
floor_bytes len (c ∷ s) =
    if c == b'B'
    then (if ltb len 2 then false else digits_up_to (len - 1) s)
    else digits_up_to len (c ∷ s)

unfoldable pub validate_floor_input : Bytes → Bool
unfolding scan_length digits_up_to floor_bytes
validate_floor_input floor =
    let len = scan_length 4 floor in if ltb 4 len || ltb len 1 then false else floor_bytes len floor

-- One row of `valid_status`: the inner loop from `j`, and the test behind it.
unfoldable pub row_matches : ℕ → Bytes → Bytes → Bool
row_matches room [] [] = true
row_matches room [] (d ∷ t) = false
row_matches room (c ∷ s) [] = false
row_matches zero (c ∷ s) (d ∷ t) = false
row_matches (suc room) (c ∷ s) (d ∷ t) = c == d && row_matches room s t

any_row : Bytes → List Bytes → Bool
any_row status [] = false
any_row status (row ∷ rows) = row_matches 8 status row || any_row status rows

unfoldable pub validate_status : Bytes → Bool
unfolding row_matches any_row
validate_status status = any_row status (opening ∷ opened ∷ closing ∷ closed ∷ between ∷ [])

-- The copy ends in front of the NUL, or where one byte is left for it.
copy_bytes : ℕ → Bytes → Bytes
copy_bytes room [] = []
copy_bytes zero (c ∷ s) = []
copy_bytes (suc room) (c ∷ s) = c ∷ copy_bytes room s

-- What `dest` holds afterwards.
unfoldable pub safe_strncpy : Bytes → ℕ → Bytes
unfolding copy_bytes
safe_strncpy src max_length = copy_bytes (max_length - 1) src

unfoldable pub safe_strcmp : Bytes → Bytes → ℕ → Bool
safe_strcmp s t zero = true
safe_strcmp [] [] (suc room) = true
safe_strcmp [] (d ∷ t) (suc room) = false
safe_strcmp (c ∷ s) [] (suc room) = false
safe_strcmp (c ∷ s) (d ∷ t) (suc room) = c == d && safe_strcmp s t room

-- The lines of one round.
pub data Alarm : Type 0 where
  stop_pressed overload_tripped data_error : Alarm

pub record Watch : Type 0 where
  pub memory : SharedMem
  pub alarms : List Alarm

abbrev pub alarm : Alarm → Watch → Watch
alarm a w = record { memory = record w.memory { emergency_mode = 1 }; alarms = w.alarms ++ a ∷ [] }

-- The condition of the last check, behind `emergency_mode != 1 &&`.
unfoldable pub inconsistent : SharedMem → Bool
unfolding validate_floor_input validate_status safe_strcmp
inconsistent m =
    not (validate_floor_input m.current_floor)
    || not (validate_floor_input m.destination_floor)
    || not (validate_status m.status)
    || ltb 1 m.open_button
    || ltb 1 m.close_button
    || ltb 1 m.door_obstruction
    || ltb 1 m.overload
    || ltb 1 m.emergency_stop
    || ltb 1 m.individual_service_mode
    || ltb 1 m.emergency_mode
    || m.door_obstruction == 1
      && not (safe_strcmp m.status opening 8 || safe_strcmp m.status closing 8)

-- The four checks of the loop, in their order.
unfoldable pub check_obstruction : Watch → Watch
check_obstruction w =
    if w.memory.door_obstruction == 1 && safe_strcmp w.memory.status closing 8
    then record w { memory = record w.memory { status = safe_strncpy opening 8 } }
    else w

unfoldable pub check_stop : Watch → Watch
check_stop w =
    if w.memory.emergency_stop == 1 && w.memory.emergency_mode == 0 then alarm stop_pressed w else w

unfoldable pub check_overload : Watch → Watch
check_overload w =
    if w.memory.overload == 1 && w.memory.emergency_mode == 0 then alarm overload_tripped w else w

unfoldable pub check_data : Watch → Watch
check_data w =
    if not (w.memory.emergency_mode == 1) && inconsistent w.memory then alarm data_error w else w

-- One round of the infinite loop, on the memory as the wait leaves it.
unfoldable pub watch : SharedMem → Watch
unfolding check_obstruction check_stop check_overload check_data
watch m =
    check_data
      (check_overload (check_stop (check_obstruction (record { memory = m; alarms = [] }))))
