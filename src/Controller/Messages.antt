-- ===== src/Controller/Messages.antt =====
-- assignment2/controller.c: the `sscanf` formats of the messages. A space in a format skips any
-- spaces, as the `%s` behind it does.
pub mod RoundTrip
use cab403work.Base.{ℕ, List, [], ◌∷◌, ◌++◌, Option, none, some, ◌==◌}
use cab403work.Base.Text.{Bytes, codes}
use cab403work.Libc.{scan_literal, scan_word}

infixl 5 ◌>>=◌
abbrev pub ◌>>=◌ {ℓ κ} : {A : Type ℓ} {B : Type κ} → Option A → (A → Option B) → Option B
none >>= f = none
some a >>= f = f a

-- "CALL %3s %3s"
unfoldable pub scan_call : Bytes → Option (Bytes × Bytes)
unfolding scan_literal scan_word
scan_call text = do
  rest₀ ← scan_literal (codes "CALL") text
  (current_floor, rest₁) ← scan_word 3 rest₀
  (destination_floor, _) ← scan_word 3 rest₁
  some (current_floor, destination_floor)

-- "CAR %255s %3s %3s"
unfoldable pub scan_car : Bytes → Option (Bytes × Bytes × Bytes)
unfolding scan_literal scan_word
scan_car text = do
  rest₀ ← scan_literal (codes "CAR") text
  (name, rest₁) ← scan_word 255 rest₀
  (lowest_floor, rest₂) ← scan_word 3 rest₁
  (highest_floor, _) ← scan_word 3 rest₂
  some (name, lowest_floor, highest_floor)

-- "STATUS %7s %3s %3s"
unfoldable pub scan_status : Bytes → Option (Bytes × Bytes × Bytes)
unfolding scan_literal scan_word
scan_status text = do
  rest₀ ← scan_literal (codes "STATUS") text
  (status, rest₁) ← scan_word 7 rest₀
  (current_floor, rest₂) ← scan_word 3 rest₁
  (destination_floor, _) ← scan_word 3 rest₂
  some (status, current_floor, destination_floor)
