-- ===== src/Safety/Texts.antt =====
-- What the character loops of assignment2/safety.c compute.
use cab403work.Base.{
  ℕ, zero, suc, ◌-◌, ◌≤◌, ◌<◌, ◌≡◌, ◌↔◌, refl, ◌⊎◌, true, [], ◌∷◌, arith, length, take,
}
use cab403work.Base.Text.{Bytes}
use cab403work.Libc.{streq, streq_iff}
use cab403work.Libc.Numbers.{AllDigits}
use cab403work.Shared.Memory.{opening, opened, closing, closed, between}
use cab403work.Safety.{
  scan_length, digits_up_to, validate_floor_input, row_matches, validate_status, safe_strcmp,
}

-- Within its bound the comparison is that of `strcmp`.
pub safe_strcmp-streq : (s t : Bytes) (k : ℕ) → length t < k → safe_strcmp s t k ≡ streq s t
unfolding safe_strcmp streq
safe_strcmp-streq s t zero h = absurd (omega arith)
safe_strcmp-streq [] [] (suc k) h = refl
safe_strcmp-streq [] (d ∷ t) (suc k) h = refl
safe_strcmp-streq (c ∷ s) [] (suc k) h = refl
safe_strcmp-streq (c ∷ s) (d ∷ t) (suc k) h = rw (safe_strcmp-streq s t k (omega arith))

row_matches-streq : (s t : Bytes) (k : ℕ) → length t ≤ k → row_matches k s t ≡ streq s t
unfolding row_matches streq
row_matches-streq [] [] k h = refl
row_matches-streq [] (d ∷ t) k h = refl
row_matches-streq (c ∷ s) [] k h = refl
row_matches-streq (c ∷ s) (d ∷ t) zero h = absurd (omega arith)
row_matches-streq (c ∷ s) (d ∷ t) (suc k) h = rw (row_matches-streq s t k (omega arith))

-- The five texts of the car's status.
abbrev pub IsStatus : Bytes → Type 0
IsStatus s = (s ≡ opening) ⊎ (s ≡ opened) ⊎ (s ≡ closing) ⊎ (s ≡ closed) ⊎ (s ≡ between)

-- The nested loops accept exactly the five texts.
pub validate_status_iff : (s : Bytes) → (validate_status s ≡ true) ↔ IsStatus s
unfolding validate_status
validate_status_iff s =
    rw
      (
        row_matches-streq s opening 8 (omega arith),
        row_matches-streq s opened 8 (omega arith),
        row_matches-streq s closing 8 (omega arith),
        row_matches-streq s closed 8 (omega arith),
        row_matches-streq s between 8 (omega arith),
      )
      (ground (
        arith,
        streq_iff s opening,
        streq_iff s opened,
        streq_iff s closing,
        streq_iff s closed,
        streq_iff s between,
      ))

-- The shape that the floor check looks for: in the first four bytes only digits, at least one, or
-- `B` and at least one digit.
abbrev pub IsPanelText : Bytes → Type 0
IsPanelText [] = ⊥
IsPanelText (c ∷ t) =
    AllDigits (take 4 (c ∷ t)) ⊎ ((c ≡ b'B') × (1 ≤ length t) × AllDigits (take 3 t))

digits-take : (k : ℕ) (s : Bytes) → (digits_up_to (scan_length k s) s ≡ true) ↔ AllDigits (take k s)
unfolding digits_up_to scan_length
digits-take zero [] = ground arith
digits-take zero (c ∷ s) = ground arith
digits-take (suc k) [] = ground arith
digits-take (suc k) (c ∷ s) = ground (arith, digits-take k s)

scan_length-le : (k : ℕ) (s : Bytes) → scan_length k s ≤ k
unfolding scan_length
scan_length-le k [] = omega arith
scan_length-le zero (c ∷ s) = omega arith
scan_length-le (suc k) (c ∷ s) = omega (arith, scan_length-le k s)

suc_sub : (n : ℕ) → suc n - 1 ≡ n
suc_sub n = omega arith

-- The floor check accepts exactly that shape.
pub validate_floor_input_iff : (s : Bytes) → (validate_floor_input s ≡ true) ↔ IsPanelText s
unfolding validate_floor_input
validate_floor_input_iff [] = ground arith
validate_floor_input_iff (c ∷ []) = ground arith
validate_floor_input_iff (c ∷ d ∷ s) =
    rw (suc_sub (scan_length 3 (d ∷ s))) (ground (arith, digits-take 2 s, scan_length-le 2 s))
