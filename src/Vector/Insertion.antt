-- ===== src/Vector/Insertion.antt =====
-- The items of a vector after assignment1/vector/dbl_vector.c, `dv_insert_at`.
use cab403work.Base.{
  take-all, ℕ, zero, suc, ◌+◌, ◌-◌, ◌^◌, ◌/◌, ◌<◌, ◌≤◌, ◌≡◌, refl, sym, ap, ◌∙◌, inl, inr,
  Bool-cases, List, [], ◌∷◌, ◌++◌, arith, ltb, ltb→lt, length, length-append, length-set,
  length-take, take, drop, set, get_elem?,
}
use cab403work.Vector.{
  Vector, assign, shift_up, dv_ensure_capacity, dv_insert_at, grown, reallocated, new_mem_size,
}
use cab403work.Vector.Contents.{IsVector, items, assign-cons, length-assign}

module _ {ℓ} {A : Type ℓ} where
  shift_up-cons :
      (x : A) (loc n : ℕ) (cells : List A)
      → shift_up (suc loc) n (x ∷ cells) ≡ x ∷ shift_up loc n cells
  unfolding shift_up
  shift_up-cons x loc zero cells = refl
  shift_up-cons x loc (suc n) cells =
      let at : suc loc + suc n ≡ suc (loc + suc n) = omega arith in
      let from : suc loc + n ≡ suc (loc + n) = omega arith in
      rw (at, from)
        (ap (shift_up (suc loc) n) (assign-cons x cells (loc + suc n) (get_elem? cells (loc + n)))
          ∙ shift_up-cons x loc n (assign cells (loc + suc n) (get_elem? cells (loc + n))))

  length-shift_up : (loc n : ℕ) (cells : List A) → length (shift_up loc n cells) ≡ length cells
  unfolding shift_up
  length-shift_up loc zero cells = refl
  length-shift_up loc (suc n) cells =
      length-shift_up loc n (assign cells (loc + suc n) (get_elem? cells (loc + n)))
      ∙ length-assign cells (loc + suc n) (get_elem? cells (loc + n))

  -- One round of the loop: the cell `n` is copied to the one behind it.
  copied :
      (n : ℕ) (cells : List A)
      → suc n < length cells
      → take n (assign cells (suc n) (get_elem? cells n))
          ++ drop (suc n) (assign cells (suc n) (get_elem? cells n))
        ≡ take (suc n) cells ++ drop (suc (suc n)) cells
  copied n [] h = absurd (omega arith)
  copied zero (x ∷ []) h = absurd (omega arith)
  copied zero (x ∷ y ∷ cells) h = refl
  copied (suc n) (x ∷ cells) h =
      rw (assign-cons x cells (suc n) (get_elem? cells n))
        (ap (λ l. x ∷ l) (copied n cells (omega arith)))

  shifted :
      (n : ℕ) (new_item : A) (cells : List A)
      → n < length cells
      → set (shift_up 0 n cells) 0 new_item ≡ new_item ∷ (take n cells ++ drop (suc n) cells)
  unfolding shift_up
  shifted n new_item [] h = absurd (omega arith)
  shifted zero new_item (x ∷ cells) h = refl
  shifted (suc n) new_item (x ∷ cells) h =
      let at : 0 + suc n ≡ suc n = omega arith in
      let from : 0 + n ≡ n = omega arith in
      let moved = assign (x ∷ cells) (suc n) (get_elem? (x ∷ cells) n) in
      rw (at, from)
        (shifted n new_item moved
            (omega (arith, length-assign (x ∷ cells) (suc n) (get_elem? (x ∷ cells) n)))
          ∙ ap (λ l. new_item ∷ l) (copied n (x ∷ cells) (omega arith)))

  take-append : (n : ℕ) (xs ys : List A) → n ≤ length xs → take n (xs ++ ys) ≡ take n xs
  take-append zero xs ys h = refl
  take-append (suc n) [] ys h = absurd (omega arith)
  take-append (suc n) (x ∷ xs) ys h = ap (λ l. x ∷ l) (take-append n xs ys (omega arith))

  take-take_same : (n : ℕ) (xs ys : List A) → n ≤ length xs → take n (take n xs ++ ys) ≡ take n xs
  take-take_same zero xs ys h = refl
  take-take_same (suc n) [] ys h = absurd (omega arith)
  take-take_same (suc n) (x ∷ xs) ys h = ap (λ l. x ∷ l) (take-take_same n xs ys (omega arith))

  insert_lem :
      (loc n m : ℕ) (new_item : A) (cells : List A)
      → m ≡ loc + n
      → m < length cells
      → take (suc m) (set (shift_up loc n cells) loc new_item)
        ≡ take loc (take m cells) ++ new_item ∷ drop loc (take m cells)
  insert_lem loc n m new_item [] e h = absurd (omega arith)
  insert_lem zero n m new_item (x ∷ cells) e h =
      let same : m ≡ n = omega arith in
      rw (same, shifted n new_item (x ∷ cells) (omega arith))
        (ap (λ l. new_item ∷ l)
          (take-take_same n (x ∷ cells) (drop (suc n) (x ∷ cells)) (omega arith)))
  insert_lem (suc loc) n zero new_item (x ∷ cells) e h = absurd (omega arith)
  insert_lem (suc loc) n (suc m) new_item (x ∷ cells) e h =
      rw (shift_up-cons x loc n cells)
        (ap (λ l. x ∷ l) (insert_lem loc n m new_item cells (omega arith) (omega arith)))

  pub drop-past : (k : ℕ) (xs : List A) → length xs ≤ k → drop k xs ≡ []
  drop-past zero [] h = refl
  drop-past zero (x ∷ xs) h = absurd (omega arith)
  drop-past (suc k) [] h = refl
  drop-past (suc k) (x ∷ xs) h = drop-past k xs (omega arith)

  pub length-items : (vec : Vector A) → length (items vec) ≤ vec.size
  length-items vec = omega (arith, length-take vec.size vec.cells)

module _ {ℓ} {A : Type ℓ} (fresh : ℕ → List A) (exact : (n : ℕ) → length (fresh n) ≡ n) where
  -- More memory, with the items still in it.
  pub record Ensured (vec : Vector A) (new_size : ℕ) (r : Vector A) : Type ℓ where
    pub allocated : length r.cells ≡ r.capacity
    pub enough : new_size ≤ r.capacity
    pub size : r.size ≡ vec.size
    pub kept : take vec.size r.cells ≡ take vec.size vec.cells
    pub small : r.capacity ≤ 2 ^ 51

  grown-ge : (capacity new_size : ℕ) → new_size ≤ grown fresh capacity new_size
  grown-ge capacity new_size = ground arith

  grown-le :
      (capacity new_size : ℕ)
      → capacity < new_size
      → new_size ≤ 2 ^ 50
      → (capacity < grown fresh capacity new_size) × (grown fresh capacity new_size ≤ 2 ^ 51)
  grown-le capacity new_size h k = ground arith

  exact_size : (n : ℕ) → n ≤ 2 ^ 51 → new_mem_size fresh n / 8 ≡ n
  unfolding new_mem_size
  exact_size n h = omega arith

  reallocated_lem :
      (n : ℕ) (cells : List A)
      → length cells ≤ n
      → (length (reallocated fresh n cells) ≡ n)
        × (reallocated fresh n cells ≡ cells ++ fresh (n - length cells))
  reallocated_lem n cells h =
      let all = take-all n cells h in
      (
        rw all (
            length-append cells (fresh (n - length cells))
            ∙ omega (arith, exact (n - length cells))),
        rw all refl,
      )

  pub ensured :
      (vec : Vector A) (new_size : ℕ)
      → IsVector vec
      → new_size ≤ 2 ^ 50
      → Ensured vec new_size (dv_ensure_capacity fresh vec new_size)
  unfolding dv_ensure_capacity
  ensured vec new_size v few = elim (Bool-cases (ltb vec.capacity new_size)) [
    | inr room ↦ rw room (record {
      allocated = v.allocated;
      enough = ground (arith, room);
      size = refl;
      kept = refl;
      small = v.small;
    })
    | inl full ↦
        let n = grown fresh vec.capacity new_size in
        let (more, bound) =
          grown-le vec.capacity new_size (ltb→lt vec.capacity new_size full) few in
        let (size, same) = reallocated_lem n vec.cells (omega (arith, v.allocated, more)) in
        rw (full, exact_size n bound)
          (record {
            allocated = size;
            enough = grown-ge vec.capacity new_size;
            size = refl;
            kept =
                ap (take vec.size) same
                ∙ take-append vec.size vec.cells _ (omega (arith, v.allocated, v.within));
            small = bound;
          })
  ]

  -- The insertion at `loc`, which is at most the size.
  inserted : Vector A → Vector A → ℕ → A → Vector A
  inserted vec r loc new_item = record r {
    cells = set (shift_up loc (r.size - loc) r.cells) loc new_item;
    size = vec.size + 1;
  }

  inserted_lem :
      (vec r : Vector A) (loc : ℕ) (new_item : A)
      → Ensured vec (vec.size + 1) r
      → loc ≤ vec.size
      → IsVector (inserted vec r loc new_item)
        × (items (inserted vec r loc new_item)
            ≡ take loc (items vec) ++ new_item ∷ drop loc (items vec))
  unfolding inserted
  inserted_lem vec r loc new_item e h =
      let next : vec.size + 1 ≡ suc vec.size = omega arith in
      (
        record {
          allocated =
              length-set (shift_up loc (r.size - loc) r.cells) loc new_item
              ∙ length-shift_up loc (r.size - loc) r.cells
              ∙ e.allocated;
          within = e.enough;
          small = e.small;
        },
        rw next (
              insert_lem loc (r.size - loc) vec.size new_item r.cells (omega (arith, e.size))
                (omega (arith, e.enough, e.allocated)))
            ∙ ap (λ l. take loc l ++ new_item ∷ drop loc l) e.kept,
      )

  -- Where `realloc` adds as many cells as it is asked for, on a vector whose memory is as large as
  -- its capacity says and holds its items, fewer than 2^50: inserting leaves such a vector, with the new item at the
  -- position, or at the end if the position is behind it, and the other items in their order.
  pub items-dv_insert_at :
      (vec : Vector A) (pos : ℕ) (new_item : A)
      → IsVector vec
      → vec.size + 1 ≤ 2 ^ 50
      → IsVector (dv_insert_at fresh vec pos new_item)
        × (items (dv_insert_at fresh vec pos new_item)
            ≡ take pos (items vec) ++ new_item ∷ drop pos (items vec))
  unfolding dv_insert_at inserted
  items-dv_insert_at vec pos new_item v few =
      let r = dv_ensure_capacity fresh vec (vec.size + 1) in
      let e = ensured vec (vec.size + 1) v few in
      elim (Bool-cases (ltb vec.size pos)) [
        | inr inside ↦ rw inside (inserted_lem vec r pos new_item e (ground (arith, inside)))
        | inl behind ↦
            let (valid, at_end) = inserted_lem vec r vec.size new_item e (omega arith) in
            let short = length-items vec in
            rw behind (
              valid,
              at_end
                  ∙ ap (λ l. l ++ new_item ∷ drop vec.size (items vec))
                      (take-all vec.size (items vec) short
                        ∙ sym (take-all pos (items vec) (ground (arith, behind, short))))
                  ∙ ap (λ l. take pos (items vec) ++ new_item ∷ l)
                      (drop-past vec.size (items vec) short
                        ∙ sym (drop-past pos (items vec) (ground (arith, behind, short)))),
            )
      ]
