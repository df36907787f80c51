-- ===== src/ReverseArray/Mapped.antt =====
-- week4/workshop4/sharedMemory/shm_reverse_array.c: how much of the array is in the shared memory.
use cab403work.Base.{ℕ, ◌≤◌, ◌↔◌, arith}
use cab403work.ReverseArray.{object_size, array_end, mapped}

-- The array lies within the pages of its mapping exactly where it has at most 1023 numbers.
pub array_end-mapped : (count : ℕ) → array_end count ≤ mapped (object_size count) ↔ count ≤ 1023
unfolding array_end object_size
array_end-mapped count = (λ h. omega (arith, h), λ h. omega (arith, h))
