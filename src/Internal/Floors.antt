-- ===== src/Internal/Floors.antt =====
-- The floors next to a floor: assignment2/internal.c, `floor_above` and `floor_below`.
use cab403work.Base.{
  ℕ, zero, suc, ◌≤◌, ◌≡◌, ◌≢◌, refl, sym, ap, ◌∙◌, inl, inr, Bool-cases, ==_iff, true, false, [],
  ◌∷◌, ◌==◌, if◌then◌else◌, arith,
}
use cab403work.Base.Int.{ℤ, pos, negsuc, decr, ltb_ℤ, <→ltb_ℤ, ≤→ltb_ℤ}
use cab403work.Base.Text.{Bytes, codes}
use cab403work.Libc.{atoi, print_ℤ, print_ℕ, truncated, starts_digit, is_digit}
use cab403work.Libc.Numbers.{atoi-print_ℕ, print_ℕ-starts_digit}
use cab403work.Car.Floors.{floor_int_to_str}
use cab403work.Car.Floors.Numbers.{floor_int_to_str-pos, floor_int_to_str-negsuc}
use cab403work.Internal.{floor_above, floor_below}

-- A floor of the building: B99 to B1, and 1 to 999.
abbrev pub IsFloor : ℤ → Type 0
IsFloor (pos n) = (1 ≤ n) × (n ≤ 999)
IsFloor (negsuc n) = n ≤ 98

-- The next floor up, with none between B1 and 1, and 999 at the top.
abbrev pub above : ℤ → ℤ
above (pos n) = if n == 999 then pos n else pos (suc n)
above (negsuc zero) = pos 1
above (negsuc (suc n)) = negsuc n

-- The next floor down, with B99 at the bottom.
abbrev pub below : ℤ → ℤ
below (pos zero) = pos zero
below (pos (suc zero)) = negsuc 0
below (pos (suc (suc n))) = pos (suc n)
below (negsuc n) = if n == 98 then negsuc n else negsuc (suc n)

not_basement : (c : ℕ) → is_digit c ≡ true → c == b'B' ≡ false
not_basement c d = ground arith

floor_int_to_str-above_ground : (n : ℕ) → floor_int_to_str (pos n) ≡ truncated 4 (print_ℤ (pos n))
unfolding floor_int_to_str
floor_int_to_str-above_ground n = rw (≤→ltb_ℤ (pos n) (pos 0) (omega arith))

-- `floor_above` and `floor_below` on the text of a floor above ground.
floor_above-digits :
    (s : Bytes) (n : ℕ)
    → starts_digit s ≡ true
    → atoi s ≡ pos n
    → floor_above s
      ≡ (if ltb_ℤ (pos n) (pos 999) then truncated 4 (print_ℤ (pos (suc n))) else truncated 4 s)
unfolding floor_above
floor_above-digits [] n d r = cc
floor_above-digits (c ∷ s) n d r = rw (not_basement c d, r)

floor_below-digits :
    (s : Bytes) (n : ℕ)
    → starts_digit s ≡ true
    → atoi s ≡ pos n
    → floor_below s ≡ (if n == 1 then codes "B1" else truncated 4 (print_ℤ (decr (pos n))))
unfolding floor_below
floor_below-digits [] n d r = cc
floor_below-digits (c ∷ s) n d r = rw (not_basement c d, r)

module _ (n : ℕ) (h : n ≤ 999) where
  print_ℕ-above : floor_above (print_ℕ n) ≡ (
      if ltb_ℤ (pos n) (pos 999)
      then truncated 4 (print_ℤ (pos (suc n)))
      else truncated 4 (print_ℕ n))
  print_ℕ-above =
      floor_above-digits (print_ℕ n) n (print_ℕ-starts_digit n) (atoi-print_ℕ n (omega arith))

  print_ℕ-below :
      floor_below (print_ℕ n)
      ≡ (if n == 1 then codes "B1" else truncated 4 (print_ℤ (decr (pos n))))
  print_ℕ-below =
      floor_below-digits (print_ℕ n) n (print_ℕ-starts_digit n) (atoi-print_ℕ n (omega arith))

above_ground : (n : ℕ) → n ≤ 999 → floor_above (print_ℕ n) ≡ floor_int_to_str (above (pos n))
unfolding print_ℤ
above_ground n h = elim (Bool-cases (n == 999)) [
  | inl top ↦
      rw (print_ℕ-above n h, top, ≤→ltb_ℤ (pos n) (pos 999) (ground arith))
        (sym (floor_int_to_str-above_ground n))
  | inr room ↦
      rw (print_ℕ-above n h, room, <→ltb_ℤ (pos n) (pos 999) (ground arith))
        (sym (floor_int_to_str-above_ground (suc n)))
]

floor_int_to_str-basement :
    (n : ℕ) → floor_int_to_str (negsuc n) ≡ truncated 4 (b'B' ∷ print_ℤ (pos (suc n)))
unfolding floor_int_to_str
floor_int_to_str-basement n = refl

-- The same on the text of a basement floor.
floor_above-basement :
    (s : Bytes) (n : ℕ)
    → atoi s ≡ pos n
    → floor_above (b'B' ∷ s)
      ≡ (if n == 1 then codes "1" else truncated 4 (b'B' ∷ print_ℤ (decr (pos n))))
unfolding floor_above
floor_above-basement s n r = rw r

floor_below-basement :
    (s : Bytes) (n : ℕ)
    → atoi s ≡ pos n
    → floor_below (b'B' ∷ s) ≡ (
        if ltb_ℤ (pos n) (pos 99)
        then truncated 4 (b'B' ∷ print_ℤ (pos (suc n)))
        else truncated 4 (b'B' ∷ s))
unfolding floor_below
floor_below-basement s n r = rw r

over_one : (n : ℕ) → suc (suc n) == 1 ≡ false
over_one n = ground arith

below_ground :
    (n : ℕ) → n ≤ 98 → floor_below (b'B' ∷ print_ℕ (suc n)) ≡ floor_int_to_str (below (negsuc n))
unfolding print_ℤ
below_ground n h =
    let read =
      floor_below-basement (print_ℕ (suc n)) (suc n) (atoi-print_ℕ (suc n) (omega arith)) in
    elim (Bool-cases (n == 98)) [
      | inl bottom ↦
          rw (read, bottom, ≤→ltb_ℤ (pos (suc n)) (pos 99) (ground arith))
            (sym (floor_int_to_str-basement n))
      | inr room ↦
          rw (read, room, <→ltb_ℤ (pos (suc n)) (pos 99) (ground arith))
            (sym (floor_int_to_str-basement (suc n)))
    ]

-- From the text of a floor from B99 to B1 or 1 to 999 the operation "up" gets the text of the next
-- floor up, with 1 above B1, and with 999 above itself.
floor_above-floor_int_to_str :
    (n : ℤ) → IsFloor n → floor_above (floor_int_to_str n) ≡ floor_int_to_str (above n)
floor_above-floor_int_to_str (pos n) h =
    rw (floor_int_to_str-pos n (omega arith)) (above_ground n (omega arith))
floor_above-floor_int_to_str (negsuc zero) h =
    unfold floor_above floor_int_to_str print_ℤ atoi in refl
floor_above-floor_int_to_str (negsuc (suc n)) h =
    rw
      (
        floor_int_to_str-negsuc (suc n) h,
        floor_above-basement (print_ℕ (suc (suc n))) (suc (suc n))
            (atoi-print_ℕ (suc (suc n)) (omega arith)),
        over_one n,
      )
      (sym (floor_int_to_str-basement n))

-- From the text of a floor from B99 to B1 or 1 to 999 the operation "down" gets the text of the
-- next floor down, with B1 below 1, and with B99 below itself.
floor_below-floor_int_to_str :
    (n : ℤ) → IsFloor n → floor_below (floor_int_to_str n) ≡ floor_int_to_str (below n)
floor_below-floor_int_to_str (pos zero) h = absurd (omega arith)
floor_below-floor_int_to_str (pos (suc zero)) h =
    unfold floor_below floor_int_to_str print_ℤ atoi in refl
floor_below-floor_int_to_str (pos (suc (suc n))) h =
    rw
      (
        floor_int_to_str-pos (suc (suc n)) (omega arith),
        print_ℕ-below (suc (suc n)) (omega arith),
        over_one n,
      )
      (sym (floor_int_to_str-above_ground (suc n)))
floor_below-floor_int_to_str (negsuc n) h = rw (floor_int_to_str-negsuc n h) (below_ground n h)

below-above : (n : ℤ) → IsFloor n → n ≢ pos 999 → (below (above n) ≡ n) × IsFloor (above n)
below-above (pos zero) h top = absurd (omega arith)
below-above (pos (suc n)) h top = elim (Bool-cases (suc n == 999)) [
  | inl e ↦ absurd (top (ap pos ((==_iff (suc n) 999).0 e)))
  | inr room ↦ rw room (refl, ground arith)
]
below-above (negsuc zero) h top = (refl, omega arith)
below-above (negsuc (suc n)) h top = elim (Bool-cases (n == 98)) [
  | inl e ↦ absurd (ground arith)
  | inr room ↦ rw room (refl, omega arith)
]

-- Below the top floor, "down" after "up" leads back to the text of the floor.
pub floor_below-floor_above :
    (n : ℤ)
    → IsFloor n
    → n ≢ pos 999
    → floor_below (floor_above (floor_int_to_str n)) ≡ floor_int_to_str n
floor_below-floor_above n h top = rw (floor_above-floor_int_to_str n h) (
    floor_below-floor_int_to_str (above n) (below-above n h top).1
    ∙ ap floor_int_to_str (below-above n h top).0)
