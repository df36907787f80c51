-- ===== src/Vector/Copy.antt =====
-- assignment1/vector/dbl_vector.c, `dv_copy` and `dv_foreach`: what they do with all the items.
use cab403work.Base.{
  ℕ, zero, suc, ◌^◌, ◌≤◌, ◌≡◌, refl, ap, ◌∙◌, inl, inr, Bool-cases, List, [], ◌∷◌, arith, ltb,
  length, take, get_elem?, Option, none, some,
}
use cab403work.Vector.{Vector, assign, visit, dv_foreach, copy_cells, dv_ensure_capacity, dv_copy}
use cab403work.Vector.Contents.{IsVector, items, assign-cons, length-assign}
use cab403work.Vector.Insertion.{ensured}

module _ {A B : Type 0} (callback : A → B → B) where
  -- One item after the other.
  fold_items : List A → B → B
  fold_items [] info = info
  fold_items (x ∷ xs) info = fold_items xs (callback x info)

  -- The rest of the rounds, where the cell has been read.
  visit_on :
      (x : A) (i n : ℕ) (cells : List A) (info : B)
      → ((y : A)
          → visit callback (suc (suc i)) n (x ∷ cells) (callback y info)
            ≡ visit callback (suc i) n cells (callback y info))
      → (o : Option A)
      → elim o [
        | none ↦ info
        | some y ↦ visit callback (suc (suc i)) n (x ∷ cells) (callback y info)
      ]
        ≡ elim o [ none ↦ info | some y ↦ visit callback (suc i) n cells (callback y info) ]
  visit_on x i n cells info same none = refl
  visit_on x i n cells info same (some y) = same y

  visit-cons :
      (x : A) (i n : ℕ) (cells : List A) (info : B)
      → visit callback (suc i) n (x ∷ cells) info ≡ visit callback i n cells info
  unfolding visit
  visit-cons x i zero cells info = refl
  visit-cons x i (suc n) cells info =
      visit_on x i n cells info (λ y. visit-cons x (suc i) n cells (callback y info))
        (get_elem? cells i)

  visit-fold_items :
      (n : ℕ) (cells : List A) (info : B)
      → visit callback 0 n cells info ≡ fold_items (take n cells) info
  unfolding visit fold_items
  visit-fold_items zero cells info = refl
  visit-fold_items (suc n) [] info = refl
  visit-fold_items (suc n) (x ∷ cells) info =
      visit-cons x 0 n cells (callback x info) ∙ visit-fold_items n cells (callback x info)

  dv_foreach-fold_items :
      (vec : Vector A) (info : B) → dv_foreach vec callback info ≡ fold_items (items vec) info
  unfolding dv_foreach
  dv_foreach-fold_items vec info = visit-fold_items vec.size vec.cells info

module _ {A : Type 0} where
  copy_cells-cons :
      (x y : A) (i n : ℕ) (cells dest : List A)
      → copy_cells (suc i) n (x ∷ cells) (y ∷ dest) ≡ y ∷ copy_cells i n cells dest
  unfolding copy_cells
  copy_cells-cons x y i zero cells dest = refl
  copy_cells-cons x y i (suc n) cells dest =
      ap (copy_cells (suc (suc i)) n (x ∷ cells)) (assign-cons y dest i (get_elem? cells i))
      ∙ copy_cells-cons x y (suc i) n cells (assign dest i (get_elem? cells i))

  length-copy_cells :
      (i n : ℕ) (cells dest : List A) → length (copy_cells i n cells dest) ≡ length dest
  unfolding copy_cells
  length-copy_cells i zero cells dest = refl
  length-copy_cells i (suc n) cells dest =
      length-copy_cells (suc i) n cells (assign dest i (get_elem? cells i))
      ∙ length-assign dest i (get_elem? cells i)

  take-copy_cells :
      (n : ℕ) (cells dest : List A)
      → n ≤ length cells
      → n ≤ length dest
      → take n (copy_cells 0 n cells dest) ≡ take n cells
  unfolding copy_cells
  take-copy_cells zero cells dest h k = refl
  take-copy_cells (suc n) [] dest h k = absurd (omega arith)
  take-copy_cells (suc n) (x ∷ cells) [] h k = absurd (omega arith)
  take-copy_cells (suc n) (x ∷ cells) (y ∷ dest) h k =
      rw (copy_cells-cons x x 0 n cells dest)
        (ap (λ l. x ∷ l) (take-copy_cells n cells dest (omega arith) (omega arith)))

module _ {A : Type 0} (fresh : ℕ → List A) (exact : (n : ℕ) → length (fresh n) ≡ n) where
  ensured_size :
      (dest : Vector A) (size new_size : ℕ)
      → dv_ensure_capacity fresh (record dest { size = size }) new_size
        ≡ record (dv_ensure_capacity fresh dest new_size) { size = size }
  unfolding dv_ensure_capacity
  ensured_size dest size new_size = elim (Bool-cases (ltb dest.capacity new_size)) [
    | inl full ↦ rw full refl
    | inr room ↦ rw room refl
  ]

  copied_to : Vector A → Vector A → Vector A
  copied_to vec r = record r { cells = copy_cells 0 vec.size vec.cells r.cells }

  dv_copy-copied_to :
      (vec dest : Vector A)
      → dv_copy fresh vec dest
        ≡ copied_to vec (record (dv_ensure_capacity fresh dest vec.size) { size = vec.size })
  unfolding dv_copy copied_to
  dv_copy-copied_to vec dest = ap (copied_to vec) (ensured_size dest vec.size vec.size)

  -- Where `realloc` gives as many cells as it is asked for: a copy into another vector, both with
  -- memory as large as their capacities say, leaves such a vector there, with the items of the first.
  items-dv_copy :
      (vec dest : Vector A)
      → IsVector vec
      → IsVector dest
      → vec.size ≤ 2 ^ 50
      → IsVector (dv_copy fresh vec dest) × (items (dv_copy fresh vec dest) ≡ items vec)
  unfolding copied_to
  items-dv_copy vec dest v d few =
      let e = ensured fresh exact dest vec.size d few in
      let r = dv_ensure_capacity fresh dest vec.size in
      rw (dv_copy-copied_to vec dest) (
        record {
          allocated = length-copy_cells 0 vec.size vec.cells r.cells ∙ e.allocated;
          within = e.enough;
          small = e.small;
        },
        take-copy_cells vec.size vec.cells r.cells (omega (arith, v.within, v.allocated))
            (omega (arith, e.enough, e.allocated)),
      )
