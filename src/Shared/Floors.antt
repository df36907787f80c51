-- ===== src/Shared/Floors.antt =====
-- assignment2/shared.h, `validate_floor_input`.
use cab403work.Base.{
  ℕ, Bool, true, false, not, ◌||◌, [], ◌∷◌, ltb, ◌==◌, if◌then◌else◌, length, arith, ◌≡◌, ◌≤◌,
  Bool-cases, inl, inr,
}
use mathlib.Core.Bool.{false≢true}
use cab403work.Base.Int.{pos, ltb_ℤ}
use cab403work.Base.Text.{Bytes}
use cab403work.Libc.{Strtol, strtol, streq}

-- `errno != 0 || *endptr != '\0' || floor_number < 1 || floor_number > highest`, negated
abbrev pub in_range : Strtol → ℕ → Bool
in_range r highest =
    not (r.erange || not (streq r.end []) || ltb_ℤ r.value (pos 1) || ltb_ℤ (pos highest) r.value)

abbrev pub checked_floor : Bytes → Bool
checked_floor [] = false
checked_floor (c ∷ s) = if c == b'B' then in_range (strtol s) 99 else in_range (strtol (c ∷ s)) 999

unfoldable pub validate_floor_input : Bytes → Bool
unfolding strtol streq
validate_floor_input floor =
    if ltb 4 (length floor) || ltb (length floor) 1 then false else checked_floor floor

-- An accepted text has four bytes at most.
pub validate_floor_input-length :
    (floor : Bytes) → validate_floor_input floor ≡ true → length floor ≤ 4
unfolding validate_floor_input
validate_floor_input-length floor h = elim (Bool-cases (ltb 4 (length floor))) [
  | inl long ↦ absurd (false≢true (rw long at h))
  | inr short ↦ ground arith
]
