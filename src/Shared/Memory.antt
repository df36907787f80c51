-- ===== src/Shared/Memory.antt =====
-- The shared memory of a car (assignment2/shared.h, `car_shared_mem`): the texts are the bytes
-- before the NUL of their arrays, the flags are `uint8_t` values. The mutex and the condition
-- variable are not fields: a program's step is one critical section, and its broadcasts are
-- counted by the program that waits for them.
use cab403work.Base.{ℕ, ltb, length, if◌then◌else◌, Option, none, some}
use cab403work.Base.Text.{Bytes, codes}

pub record SharedMem : Type 0 where
  pub current_floor : Bytes
  pub destination_floor : Bytes
  pub status : Bytes
  pub open_button : ℕ
  pub close_button : ℕ
  pub door_obstruction : ℕ
  pub overload : ℕ
  pub emergency_stop : ℕ
  pub individual_service_mode : ℕ
  pub emergency_mode : ℕ

-- The five texts that the programs write into `status`.
abbrev pub opening : Bytes
opening = codes "Opening"

abbrev pub opened : Bytes
opened = codes "Open"

abbrev pub closing : Bytes
closing = codes "Closing"

abbrev pub closed : Bytes
closed = codes "Closed"

abbrev pub between : Bytes
between = codes "Between"

-- The fields behind the `memset` and the three `strcpy`.
abbrev pub reset_to : Bytes → SharedMem
reset_to floor = record {
  current_floor = floor;
  destination_floor = floor;
  status = closed;
  open_button = 0;
  close_button = 0;
  door_obstruction = 0;
  overload = 0;
  emergency_stop = 0;
  individual_service_mode = 0;
  emergency_mode = 0;
}

-- None where `strcpy` writes the floor and its NUL behind the four bytes of an array, which leaves
-- the fields behind it with any bytes.
unfoldable pub reset_shm : Bytes → Option SharedMem
reset_shm floor = if ltb (length floor) 4 then some (reset_to floor) else none

-- `init_shm` sets up the mutex and the condition variable, and resets.
unfoldable pub init_shm : Bytes → Option SharedMem
unfolding reset_shm
init_shm lowest_floor = reset_shm lowest_floor
