-- ===== src/Internal.antt =====
-- assignment2/internal.c: the panel inside a car, one operation on the shared memory a run.
pub mod Floors
pub mod Operations
use cab403work.Base.{ℕ, Bool, true, false, List, [], ◌∷◌, ◌==◌, if◌then◌else◌, Option, none, some}
use cab403work.Base.Int.{ℤ, pos, incr, decr, ltb_ℤ}
use cab403work.Base.Text.{Bytes, codes}
use cab403work.Libc.{streq, atoi, print_ℤ, truncated}
use cab403work.Shared.Memory.{SharedMem, closed, between}

-- `floor_num == k`
abbrev equals : ℤ → ℕ → Bool
equals (ℤ.pos n) k = n == k
equals (ℤ.negsuc n) k = false

unfoldable pub floor_above : Bytes → Bytes
floor_above [] = truncated 4 (print_ℤ (incr (atoi [])))
floor_above (c ∷ s) =
    if c == b'B'
    then (let floor_num = atoi s in
        if equals floor_num 1 then codes "1" else truncated 4 (b'B' ∷ print_ℤ (decr floor_num)))
    else (let floor_num = atoi (c ∷ s) in
        if ltb_ℤ floor_num (pos 999)
        then truncated 4 (print_ℤ (incr floor_num))
        else truncated 4 (c ∷ s))

unfoldable pub floor_below : Bytes → Bytes
floor_below [] = truncated 4 (print_ℤ (decr (atoi [])))
floor_below (c ∷ s) =
    if c == b'B'
    then (let floor_num = atoi s in
        if ltb_ℤ floor_num (pos 99)
        then truncated 4 (b'B' ∷ print_ℤ (incr floor_num))
        else truncated 4 (c ∷ s))
    else (let floor_num = atoi (c ∷ s) in
        if equals floor_num 1 then codes "B1" else truncated 4 (print_ℤ (decr floor_num)))

-- The lines that a run may print.
pub data Message : Type 0 where
  moving doors_open service_only invalid_operation : Message

-- The memory after the run, the broadcasts, the line printed and whether the exit status is
-- EXIT_FAILURE.
pub record Run : Type 0 where
  pub memory : SharedMem
  pub broadcasts : ℕ
  pub message : Option Message
  pub failed : Bool

abbrev pub changed : SharedMem → Run
changed m = record { memory = m; broadcasts = 1; message = none; failed = false }

abbrev pub refused : SharedMem → Message → Run
refused m text = record { memory = m; broadcasts = 0; message = some text; failed = false }

-- The body of "up" and "down", with the new destination.
unfoldable pub drive : Bytes → SharedMem → Run
drive next_floor m =
    if m.individual_service_mode == 0
    then refused m service_only
    else if streq m.status closed
    then changed (record m { destination_floor = next_floor })
    else if streq m.status between
    then refused m moving
    else refused m doors_open

-- `main` behind the mapping of the memory, on `argv[2]`.
unfoldable pub operate : Bytes → SharedMem → Run
unfolding drive
operate operation m =
    if streq operation (codes "open")
    then changed (record m { open_button = 1 })
    else if streq operation (codes "close")
    then changed (record m { close_button = 1 })
    else if streq operation (codes "stop")
    then changed (record m { emergency_stop = 1 })
    else if streq operation (codes "service_on")
    then changed (record m { individual_service_mode = 1; emergency_mode = 0 })
    else if streq operation (codes "service_off")
    then changed (record m { individual_service_mode = 0 })
    else if streq operation (codes "up")
    then drive (floor_above m.current_floor) m
    else if streq operation (codes "down")
    then drive (floor_below m.current_floor) m
    else record { memory = m; broadcasts = 0; message = some invalid_operation; failed = true }
