-- ===== src/Vector/Contents.antt =====
-- The items of a vector after assignment1/vector/dbl_vector.c, `dv_insert_at` and `dv_remove_at`.
use cab403work.Base.{
  ◌^◌, ℕ, zero, suc, ◌+◌, ◌-◌, ◌<◌, ◌≤◌, ◌≡◌, refl, sym, ap, ◌∙◌, false, List, [], ◌∷◌, ◌++◌, arith,
  leb, length, length-set, take, drop, get_elem?, Option, none, some,
}
use cab403work.Vector.{Vector, assign, shift_down, dv_remove_at}

-- The capacity is that of the memory, holds the items, and is far from the end of `size_t`.
pub record IsVector {ℓ} {A : Type ℓ} (vec : Vector A) : Type ℓ where
  pub allocated : length vec.cells ≡ vec.capacity
  pub within : vec.size ≤ vec.capacity
  pub small : vec.capacity ≤ 2 ^ 51

-- The items.
abbrev pub items {ℓ} : {A : Type ℓ} → Vector A → List A
items vec = take vec.size vec.cells

module _ {ℓ} {A : Type ℓ} where
  pub assign-cons :
      (x : A) (cells : List A) (i : ℕ) (o : Option A)
      → assign (x ∷ cells) (suc i) o ≡ x ∷ assign cells i o
  assign-cons x cells i none = refl
  assign-cons x cells i (some y) = refl

  shift_down-cons :
      (x : A) (pos n : ℕ) (cells : List A)
      → shift_down (suc pos) n (x ∷ cells) ≡ x ∷ shift_down pos n cells
  unfolding shift_down
  shift_down-cons x pos zero cells = refl
  shift_down-cons x pos (suc n) cells =
      let o = get_elem? cells (suc pos) in
      ap (shift_down (suc (suc pos)) n) (assign-cons x cells pos o)
      ∙ shift_down-cons x (suc pos) n (assign cells pos o)

  -- The cells behind the first move one down, as far as the loop goes.
  take-shift_down :
      (n : ℕ) (x : A) (cells : List A)
      → n ≤ length cells
      → take n (shift_down 0 n (x ∷ cells)) ≡ take n cells
  unfolding shift_down
  take-shift_down zero x cells h = refl
  take-shift_down (suc n) x [] h = absurd (omega arith)
  take-shift_down (suc n) x (y ∷ cells) h =
      rw (shift_down-cons y 0 n (y ∷ cells))
        (ap (λ l. y ∷ l) (take-shift_down n y cells (omega arith)))

  pub length-assign :
      (cells : List A) (i : ℕ) (o : Option A) → length (assign cells i o) ≡ length cells
  length-assign cells i none = refl
  length-assign cells i (some x) = length-set cells i x

  length-shift_down : (pos n : ℕ) (cells : List A) → length (shift_down pos n cells) ≡ length cells
  unfolding shift_down
  length-shift_down pos zero cells = refl
  length-shift_down pos (suc n) cells =
      length-shift_down (suc pos) n (assign cells pos (get_elem? cells (suc pos)))
      ∙ length-assign cells pos (get_elem? cells (suc pos))

  remove_lem :
      (pos n m : ℕ) (cells : List A)
      → m ≡ pos + n
      → m < length cells
      → take m (shift_down pos n cells) ≡ take pos cells ++ drop (suc pos) (take (suc m) cells)
  remove_lem pos n m [] e h = absurd (omega arith)
  remove_lem zero n m (x ∷ cells) e h =
      let same : m ≡ n = omega arith in rw same (take-shift_down n x cells (omega arith))
  remove_lem (suc pos) n zero (x ∷ cells) e h = absurd (omega arith)
  remove_lem (suc pos) n (suc m) (x ∷ cells) e h =
      rw (shift_down-cons x pos n cells)
        (ap (λ l. x ∷ l) (remove_lem pos n m cells (omega arith) (omega arith)))

  pub take-take : (pos m : ℕ) (cells : List A) → pos ≤ m → take pos (take m cells) ≡ take pos cells
  take-take zero m cells h = refl
  take-take (suc pos) zero cells h = absurd (omega arith)
  take-take (suc pos) (suc m) [] h = refl
  take-take (suc pos) (suc m) (x ∷ cells) h = ap (λ l. x ∷ l) (take-take pos m cells (omega arith))

-- On a vector whose memory is as large as its capacity says and holds its items: removing at the
-- position of an item leaves such a vector, with the items before the position and those behind it.
pub items-dv_remove_at {ℓ} :
    {A : Type ℓ} (vec : Vector A) (pos : ℕ)
    → IsVector vec
    → pos < vec.size
    → IsVector (dv_remove_at vec pos)
      × (items (dv_remove_at vec pos) ≡ take pos (items vec) ++ drop (suc pos) (items vec))
unfolding dv_remove_at
items-dv_remove_at vec pos v h =
    let inside : leb vec.size pos ≡ false = ground arith in
    let m = vec.size - 1 in
    let size : suc m ≡ vec.size = omega arith in
    rw inside (
      record {
        allocated = length-shift_down pos (m - pos) vec.cells ∙ v.allocated;
        within = omega (arith, v.within);
        small = v.small;
      },
      remove_lem pos (m - pos) m vec.cells (omega arith) (omega (arith, v.allocated, v.within))
          ∙ ap (λ l. l ++ drop (suc pos) (take (suc m) vec.cells))
              (sym (take-take pos (suc m) vec.cells (omega arith)))
          ∙ ap (λ k. take pos (take k vec.cells) ++ drop (suc pos) (take k vec.cells)) size,
    )
