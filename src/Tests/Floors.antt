-- ===== src/Tests/Floors.antt =====
-- Floors of assignment2: car.c and internal.c.
use cab403work.Base.{◌≡◌, arith}
use cab403work.Base.Int.{negsuc}
use cab403work.Car.Floors.{floor_str_to_int, floor_int_to_str}
use cab403work.Car.Floors.Numbers.{floor_str_to_int-floor_int_to_str}

floor_str_to_int-floor_int_to_str_example :
    floor_str_to_int (floor_int_to_str (negsuc 41)) ≡ negsuc 41
floor_str_to_int-floor_int_to_str_example =
    floor_str_to_int-floor_int_to_str (negsuc 41) (ground arith)
