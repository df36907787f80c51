-- ===== src/Base/Int.antt =====
-- Signed integers over the native numbers, for the C code's `int` and `long`.
use cab403work.Base.{
  ℕ, zero, suc, ◌+◌, ◌-◌, ◌≤◌, ◌≡◌, Bool, true, false, arith, ltb, leb, if◌then◌else◌,
}

-- `negsuc n` is -(n + 1).
pub data ℤ : Type 0 where
  pos : ℕ → ℤ
  negsuc : ℕ → ℤ

abbrev pub pos_part : ℤ → ℕ
pos_part (pos n) = n
pos_part (negsuc n) = 0

abbrev pub neg_part : ℤ → ℕ
neg_part (pos n) = 0
neg_part (negsuc n) = suc n

-- C's unary minus, `x + 1` and `x - 1`, far from the bounds of the type.
abbrev pub neg : ℤ → ℤ
neg (pos zero) = pos zero
neg (pos (suc n)) = negsuc n
neg (negsuc n) = pos (suc n)

abbrev pub incr : ℤ → ℤ
incr (pos n) = pos (suc n)
incr (negsuc zero) = pos zero
incr (negsuc (suc n)) = negsuc n

abbrev pub decr : ℤ → ℤ
decr (pos zero) = negsuc zero
decr (pos (suc n)) = pos n
decr (negsuc n) = negsuc (suc n)

infix 50 ◌≤ℤ◌ ◌<ℤ◌
abbrev pub ◌≤ℤ◌ : ℤ → ℤ → Type 0
a ≤ℤ b = pos_part a + neg_part b ≤ pos_part b + neg_part a

abbrev pub ◌<ℤ◌ : ℤ → ℤ → Type 0
a <ℤ b = suc (pos_part a + neg_part b) ≤ pos_part b + neg_part a

abbrev pub ltb_ℤ : ℤ → ℤ → Bool
ltb_ℤ (pos a) (pos b) = ltb a b
ltb_ℤ (pos a) (negsuc b) = false
ltb_ℤ (negsuc a) (pos b) = true
ltb_ℤ (negsuc a) (negsuc b) = ltb b a

abbrev pub leb_ℤ : ℤ → ℤ → Bool
leb_ℤ (pos a) (pos b) = leb a b
leb_ℤ (pos a) (negsuc b) = false
leb_ℤ (negsuc a) (pos b) = true
leb_ℤ (negsuc a) (negsuc b) = leb b a

-- |a - b|
abbrev pub gap : ℤ → ℤ → ℕ
gap a b =
    (pos_part a + neg_part b - (pos_part b + neg_part a))
    + (pos_part b + neg_part a - (pos_part a + neg_part b))

pub eq_of_parts : (a b : ℤ) → pos_part a + neg_part b ≡ pos_part b + neg_part a → a ≡ b
eq_of_parts a b h = ground arith

pub ltb_ℤ→< : (a b : ℤ) → ltb_ℤ a b ≡ true → a <ℤ b
ltb_ℤ→< (pos a) (pos b) h = ground arith
ltb_ℤ→< (pos a) (negsuc b) h = ground arith
ltb_ℤ→< (negsuc a) (pos b) h = omega arith
ltb_ℤ→< (negsuc a) (negsuc b) h = ground arith

pub ltb_ℤ→≤ : (a b : ℤ) → ltb_ℤ a b ≡ false → b ≤ℤ a
ltb_ℤ→≤ (pos a) (pos b) h = ground arith
ltb_ℤ→≤ (pos a) (negsuc b) h = omega arith
ltb_ℤ→≤ (negsuc a) (pos b) h = ground arith
ltb_ℤ→≤ (negsuc a) (negsuc b) h = ground arith

pub <→ltb_ℤ : (a b : ℤ) → a <ℤ b → ltb_ℤ a b ≡ true
<→ltb_ℤ (pos a) (pos b) h = ground arith
<→ltb_ℤ (pos a) (negsuc b) h = absurd (omega arith)
<→ltb_ℤ (negsuc a) (pos b) h = ground arith
<→ltb_ℤ (negsuc a) (negsuc b) h = ground arith

pub ≤→ltb_ℤ : (a b : ℤ) → b ≤ℤ a → ltb_ℤ a b ≡ false
≤→ltb_ℤ (pos a) (pos b) h = ground arith
≤→ltb_ℤ (pos a) (negsuc b) h = ground arith
≤→ltb_ℤ (negsuc a) (pos b) h = absurd (omega arith)
≤→ltb_ℤ (negsuc a) (negsuc b) h = ground arith

pub incr_parts : (a : ℤ) → pos_part (incr a) + neg_part a ≡ pos_part a + neg_part (incr a) + 1
incr_parts (pos n) = omega arith
incr_parts (negsuc zero) = omega arith
incr_parts (negsuc (suc n)) = omega arith

pub decr_parts : (a : ℤ) → pos_part (decr a) + neg_part a + 1 ≡ pos_part a + neg_part (decr a)
decr_parts (pos zero) = omega arith
decr_parts (pos (suc n)) = omega arith
decr_parts (negsuc n) = omega arith

-- `a - k`
abbrev pub less : ℤ → ℕ → ℤ
less (pos n) k = if ltb n k then negsuc (k - n - 1) else pos (n - k)
less (negsuc n) k = negsuc (n + k)

pub less_parts :
    (a : ℤ) (k : ℕ) → pos_part (less a k) + neg_part a + k ≡ pos_part a + neg_part (less a k)
less_parts a k = ground arith

infixl 60 ◌+ℤ◌ ◌-ℤ◌
abbrev pub ◌+ℤ◌ : ℤ → ℤ → ℤ
pos a +ℤ pos b = pos (a + b)
pos a +ℤ negsuc b = less (pos a) (suc b)
negsuc a +ℤ pos b = less (pos b) (suc a)
negsuc a +ℤ negsuc b = negsuc (suc (a + b))

abbrev pub ◌-ℤ◌ : ℤ → ℤ → ℤ
a -ℤ b = a +ℤ neg b

pub sub_parts :
    (a b : ℤ)
    → pos_part (a -ℤ b) + neg_part a + pos_part b ≡ pos_part a + neg_part b + neg_part (a -ℤ b)
sub_parts a b = ground arith
