-- ===== src/Internal/Operations.antt =====
-- What the operations of assignment2/internal.c do to the shared memory.
use cab403work.Base.{◌↔◌, ◌≡◌, ◌≢◌, ◌⊎◌, arith, none, some}
use cab403work.Base.Text.{Bytes}
use cab403work.Libc.{streq, streq_iff}
use cab403work.Shared.Memory.{SharedMem, closed, between}
use cab403work.Internal.{Run, operate, drive, floor_above, floor_below, moving, service_only}

-- What a run leaves alone, whatever the operation.
pub record Leaves (m : SharedMem) (r : Run) : Type 0 where
  pub floor : r.memory.current_floor ≡ m.current_floor
  pub status : r.memory.status ≡ m.status
  pub sensors : (r.memory.door_obstruction ≡ m.door_obstruction) × (r.memory.overload ≡ m.overload)
  -- The destination changes only in individual service mode and with closed doors.
  pub destination :
      (r.memory.destination_floor ≡ m.destination_floor)
      ⊎ ((m.individual_service_mode ≢ 0) × (m.status ≡ closed))
  -- A run that prints a line or fails changes nothing and wakes nobody, any other run wakes the
  -- waiting programs once.
  pub answer :
      ((r.message ≡ none) × (r.broadcasts ≡ 1))
      ⊎ ((r.message ≢ none) × (r.broadcasts ≡ 0) × (r.memory ≡ m))

drive-Leaves : (next_floor : Bytes) (m : SharedMem) → Leaves m (drive next_floor m)
unfolding drive
drive-Leaves next_floor m = ground (arith, streq_iff m.status closed)

-- Every operation, known or not, keeps the floor, the status and the sensors, changes the
-- destination only in individual service mode with the status Closed, and either wakes the waiting
-- programs once and prints nothing or prints a line and changes nothing.
pub operate-Leaves : (operation : Bytes) (m : SharedMem) → Leaves m (operate operation m)
unfolding operate
operate-Leaves operation m = ground (
  arith,
  drive-Leaves (floor_above m.current_floor) m,
  drive-Leaves (floor_below m.current_floor) m,
)

-- Which line "up" and "down" print: none exactly in individual service mode with closed doors, and
-- otherwise the mode is named before the move and the move before the doors.
pub drive-message :
    (next_floor : Bytes) (m : SharedMem)
    → ((drive next_floor m).message ≡ none
        ↔ ((m.individual_service_mode ≢ 0) × (m.status ≡ closed)))
      × ((drive next_floor m).message ≡ some service_only ↔ (m.individual_service_mode ≡ 0))
      × ((drive next_floor m).message ≡ some moving
          ↔ ((m.individual_service_mode ≢ 0) × (m.status ≡ between)))
unfolding drive streq
drive-message next_floor m = ground (arith, streq_iff m.status closed, streq_iff m.status between)
