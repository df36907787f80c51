-- ===== src/Libc/Words.antt =====
-- Scanning back the words of a text that a format put together.
use cab403work.Base.{
  ℕ, zero, suc, ◌≤◌, ◌<◌, ◌≡◌, refl, sym, ap, ◌∙◌, true, false, [], ◌∷◌, ◌++◌, append-nil, arith,
  length, some,
}
use cab403work.Base.Text.{Bytes, All, codes}
use cab403work.Libc.{is_space, read_word, scan_word}

-- A word that a format `%<width>s` reads whole.
abbrev pub IsWord : ℕ → Bytes → Type 0
IsWord width s = All (λ c. is_space c ≡ false) s × (0 < length s) × (length s ≤ width)

-- The text ends or goes on with a space.
abbrev pub Breaks : Bytes → Type 0
Breaks [] = Unit {0}
Breaks (c ∷ s) = is_space c ≡ true

read_word-append :
    (width : ℕ) (s rest : Bytes)
    → All (λ c. is_space c ≡ false) s
    → length s ≤ width
    → Breaks rest
    → read_word width (s ++ rest) ≡ (s, rest)
unfolding read_word
read_word-append zero [] rest h l b = refl
read_word-append zero (c ∷ s) rest h l b = absurd (omega arith)
read_word-append (suc w) [] [] h l b = refl
read_word-append (suc w) [] (c ∷ rest) h l b = rw b
read_word-append (suc w) (c ∷ s) rest h l b =
    rw (h.0, read_word-append w s rest h.1 (omega arith) b)

-- With or without a space in front, the word is read and the rest is left.
pub scan_word-append :
    (width : ℕ) (s rest : Bytes)
    → IsWord width s
    → Breaks rest
    → scan_word width (s ++ rest) ≡ some (s, rest)
unfolding scan_word
scan_word-append width [] rest h b = absurd (omega arith)
scan_word-append width (c ∷ s) rest h b =
    rw h.0.0 (rw (read_word-append width (c ∷ s) rest h.0 h.2 b))

pub scan_word-space :
    (width : ℕ) (s rest : Bytes)
    → IsWord width s
    → Breaks rest
    → scan_word width (codes " " ++ (s ++ rest)) ≡ some (s, rest)
unfolding scan_word
scan_word-space width [] rest h b = absurd (omega arith)
scan_word-space width (c ∷ s) rest h b =
    rw h.0.0 (rw (read_word-append width (c ∷ s) rest h.0 h.2 b))

pub scan_word-last :
    (width : ℕ) (s : Bytes) → IsWord width s → scan_word width (codes " " ++ s) ≡ some (s, [])
scan_word-last width s h =
    ap (λ t. scan_word width (codes " " ++ t)) (sym (append-nil s))
    ∙ scan_word-space width s [] h tt

pub scan_word-whole : (width : ℕ) (s : Bytes) → IsWord width s → scan_word width s ≡ some (s, [])
scan_word-whole width s h =
    ap (scan_word width) (sym (append-nil s)) ∙ scan_word-append width s [] h tt
