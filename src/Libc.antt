-- ===== src/Libc.antt =====
-- What the programs use of the C standard library: string.h, the conversions of stdlib.h and the
-- formats `%d`, `%s` and `%Ns` of stdio.h. A text is its bytes before the NUL.
pub mod Numbers
pub mod Words
use cab403work.Base.{
  ℕ, zero, suc, ◌+◌, ◌-◌, ◌*◌, ◌/◌, ◌%◌, ◌^◌, ◌<◌, ◌≡◌, ◌≢◌, refl, ap, ◌↔◌, inl, inr, Bool-cases,
  Bool, true, false, ◌&&◌, ◌||◌, List, [], ◌∷◌, ◌++◌, arith, ltb, leb, ◌==◌, if◌then◌else◌, take,
  Option, none, some,
}
use cab403work.Base.Int.{ℤ, pos, negsuc, neg}
use cab403work.Base.Text.{Bytes}

-- `strcmp(a, b) == 0`
unfoldable pub streq : Bytes → Bytes → Bool
streq [] [] = true
streq [] (d ∷ t) = false
streq (c ∷ s) [] = false
streq (c ∷ s) (d ∷ t) = c == d && streq s t

-- `strncmp(s, prefix, strlen(prefix)) == 0`
unfoldable pub starts_with : Bytes → Bytes → Bool
starts_with s [] = true
starts_with [] (d ∷ p) = false
starts_with (c ∷ s) (d ∷ p) = c == d && starts_with s p

-- What `snprintf(dest, size, "%s", s)` leaves in `dest`, and `strncpy(dest, s, size - 1)` with
-- a NUL at the end of `dest`.
abbrev pub truncated : ℕ → Bytes → Bytes
truncated size s = take (size - 1) s

abbrev pub is_digit : ℕ → Bool
is_digit c = leb b'0' c && leb c b'9'

-- `isspace` in the C locale
abbrev pub is_space : ℕ → Bool
is_space c = c == 32 || leb 9 c && leb c 13

unfoldable pub skip_spaces : Bytes → Bytes
skip_spaces [] = []
skip_spaces (c ∷ s) = let rest = skip_spaces s in if is_space c then rest else c ∷ s

-- The digits at the front, most significant first, onto the value `n` read so far; and what
-- follows them.
unfoldable pub read_digits : ℕ → Bytes → ℕ × Bytes
read_digits n [] = (n, [])
read_digits n (c ∷ s) =
    let rest = read_digits (n * 10 + (c - b'0')) s in if is_digit c then rest else (n, c ∷ s)

abbrev pub starts_digit : Bytes → Bool
starts_digit [] = false
starts_digit (c ∷ s) = is_digit c

-- `strtol(s, &end, 10)`: the value, whether `errno` was set to ERANGE, and the text at `end`.
-- Without a digit the value is 0 and `end` is `s`.
pub record Strtol : Type 0 where
  pub value : ℤ
  pub erange : Bool
  pub end : Bytes

abbrev pub long_max : ℕ
long_max = 2 ^ 63 - 1

unfoldable pub signed_digits : Bytes → Bool → Bytes → Strtol
signed_digits s negative t =
    if starts_digit t
    then (let (n, rest) = read_digits 0 t in
        if negative
        then (if ltb (long_max + 1) n
            then record { value = neg (pos (long_max + 1)); erange = true; end = rest }
            else record { value = neg (pos n); erange = false; end = rest })
        else (if ltb long_max n
            then record { value = pos long_max; erange = true; end = rest }
            else record { value = pos n; erange = false; end = rest }))
    else record { value = pos 0; erange = false; end = s }

abbrev pub after_spaces : Bytes → Bytes → Strtol
after_spaces s [] = record { value = pos 0; erange = false; end = s }
after_spaces s (c ∷ t) =
    if c == b'-'
    then signed_digits s true t
    else if c == b'+'
    then signed_digits s false t
    else signed_digits s false (c ∷ t)

unfoldable pub strtol : Bytes → Strtol
unfolding skip_spaces read_digits signed_digits
strtol s = after_spaces s (skip_spaces s)

-- `atoi(s)`, on the texts of a few bytes that the programs pass to it
unfoldable pub atoi : Bytes → ℤ
unfolding strtol
atoi s = (strtol s).value

-- The decimal digits of `n`, with fuel for one digit a round.
unfoldable pub decimal : ℕ → ℕ → Bytes
decimal zero n = []
decimal (suc f) n =
    let rest = decimal f (n / 10) in
    if ltb n 10 then (b'0' + n) ∷ [] else rest ++ (b'0' + n % 10) ∷ []

unfoldable pub print_ℕ : ℕ → Bytes
unfolding decimal
print_ℕ n = decimal (suc n) n

-- `%d`
unfoldable pub print_ℤ : ℤ → Bytes
unfolding print_ℕ
print_ℤ (pos n) = print_ℕ n
print_ℤ (negsuc n) = b'-' ∷ print_ℕ (suc n)

-- `%<width>s` of `sscanf`, from a text whose leading spaces are skipped: the word, cut at `width`
-- bytes, and the text behind it.
unfoldable pub read_word : ℕ → Bytes → Bytes × Bytes
read_word zero s = ([], s)
read_word (suc w) [] = ([], [])
read_word (suc w) (c ∷ s) =
    let (word, rest) = read_word w s in if is_space c then ([], c ∷ s) else (c ∷ word, rest)

abbrev pub nonempty_word : Bytes × Bytes → Option (Bytes × Bytes)
nonempty_word ([], rest) = none
nonempty_word (c ∷ word, rest) = some (c ∷ word, rest)

-- One `%<width>s`: none where no byte is left to read.
unfoldable pub scan_word : ℕ → Bytes → Option (Bytes × Bytes)
unfolding skip_spaces read_word
scan_word width s = nonempty_word (read_word width (skip_spaces s))

-- A literal byte sequence of a `sscanf` format, with no space in it.
unfoldable pub scan_literal : Bytes → Bytes → Option Bytes
scan_literal [] s = some s
scan_literal (d ∷ p) [] = none
scan_literal (d ∷ p) (c ∷ s) = let rest = scan_literal p s in if c == d then rest else none

pub streq_iff : (a b : Bytes) → (streq a b ≡ true) ↔ (a ≡ b)
unfolding streq
streq_iff [] [] = ground arith
streq_iff [] (d ∷ t) = ground arith
streq_iff (c ∷ s) [] = ground arith
streq_iff (c ∷ s) (d ∷ t) = ground (arith, streq_iff s t)

pub streq_refl : (a : Bytes) → streq a a ≡ true
streq_refl a = (streq_iff a a).1 refl

pub streq_ne : (s t : Bytes) → s ≢ t → streq s t ≡ false
streq_ne s t n = elim (Bool-cases (streq s t)) [
  | inr differs ↦ differs
  | inl same ↦ absurd (n ((streq_iff s t).0 same))
]
