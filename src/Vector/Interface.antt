-- ===== src/Vector/Interface.antt =====
-- The operations of assignment1/vector/dbl_vector.h on a vector, against those on the list of its
-- items.
use cab403work.Base.{
  take-all, ℕ, suc, ◌+◌, ◌-◌, ◌^◌, ◌≤◌, ◌≡◌, refl, sym, ap, ◌∙◌, inl, inr, Bool-cases, true, false,
  List, [], ◌∷◌, ◌++◌, arith, ltb, leb, length, length-append, length-drop, length-take, take, drop,
  append-nil,
}
use cab403work.Base.Text.{All}
use cab403work.Vector.{
  Vector, shift_up, dv_ensure_capacity, dv_insert_at, dv_remove_at, dv_push, dv_pop, dv_clear,
  dv_init,
}
use cab403work.Vector.Contents.{IsVector, items, take-take, items-dv_remove_at}
use cab403work.Vector.Insertion.{items-dv_insert_at, drop-past, length-items, ensured}

-- A call of the interface that changes the vector.
pub data Command {ℓ} (A : Type ℓ) : Type ℓ where
  ensure_capacity : ℕ → Command A
  push : A → Command A
  pop clear : Command A
  insert_at : ℕ → A → Command A
  remove_at : ℕ → Command A

-- What it is to do to the items.
abbrev on_items {ℓ} : {A : Type ℓ} → Command A → List A → List A
on_items (ensure_capacity new_size) xs = xs
on_items (push new_item) xs = xs ++ new_item ∷ []
on_items pop xs = take (length xs - 1) xs
on_items clear xs = []
on_items (insert_at pos new_item) xs = take pos xs ++ new_item ∷ drop pos xs
on_items (remove_at pos) xs = take pos xs ++ drop (suc pos) xs

-- The capacity that a call asks for by itself.
abbrev pub asked {ℓ} : {A : Type ℓ} → Command A → ℕ
asked (ensure_capacity new_size) = new_size
asked c = 0

-- A call adds at most one item.
length-on_items :
    {A : Type 0} (c : Command A) (xs : List A) → length (on_items c xs) ≤ length xs + 1
length-on_items (ensure_capacity new_size) xs = omega arith
length-on_items (push new_item) xs = omega (arith, length-append xs (new_item ∷ []))
length-on_items pop xs = omega (arith, length-take (length xs - 1) xs)
length-on_items clear xs = omega arith
length-on_items (insert_at pos new_item) xs = omega (
  arith,
  length-append (take pos xs) (new_item ∷ drop pos xs),
  length-take pos xs,
  length-drop pos xs,
)
length-on_items (remove_at pos) xs = omega (
  arith,
  length-append (take pos xs) (drop (suc pos) xs),
  length-take pos xs,
  length-drop (suc pos) xs,
)

length-items_exact : {A : Type 0} (vec : Vector A) → IsVector vec → length (items vec) ≡ vec.size
length-items_exact vec v = omega (arith, length-take vec.size vec.cells, v.allocated, v.within)

-- A vector that holds these items.
abbrev pub Represents : {A : Type 0} → Vector A → List A → Type 0
Represents vec xs = IsVector vec × (items vec ≡ xs)

pub calls_on_items : {A : Type 0} → List (Command A) → List A → List A
calls_on_items [] xs = xs
calls_on_items (c ∷ cs) xs = calls_on_items cs (on_items c xs)

module _ {A : Type 0} (fresh : ℕ → List A) (exact : (n : ℕ) → length (fresh n) ≡ n) where
  pub on_vector : Command A → Vector A → Vector A
  on_vector (ensure_capacity new_size) vec = dv_ensure_capacity fresh vec new_size
  on_vector (push new_item) vec = dv_push fresh vec new_item
  on_vector pop vec = dv_pop vec
  on_vector clear vec = dv_clear vec
  on_vector (insert_at pos new_item) vec = dv_insert_at fresh vec pos new_item
  on_vector (remove_at pos) vec = dv_remove_at vec pos

  dv_push-dv_insert_at :
      (vec : Vector A) (new_item : A)
      → dv_push fresh vec new_item ≡ dv_insert_at fresh vec vec.size new_item
  unfolding dv_push dv_insert_at dv_ensure_capacity shift_up
  dv_push-dv_insert_at vec new_item =
      let at_end : ltb vec.size vec.size ≡ false = ground arith in
      let no_shift : vec.size - vec.size ≡ 0 = omega arith in
      elim (Bool-cases (ltb vec.capacity (vec.size + 1))) [
        | inl full ↦ rw (at_end, full, no_shift) refl
        | inr room ↦ rw (at_end, room, no_shift) refl
      ]

  room_lem :
      (vec : Vector A) (new_size : ℕ)
      → IsVector vec
      → (dv_ensure_capacity fresh vec new_size).size
        ≤ (dv_ensure_capacity fresh vec new_size).capacity
  unfolding dv_ensure_capacity
  room_lem vec new_size v =
      let within = v.within in
      elim (Bool-cases (ltb vec.capacity new_size)) [
        | inl full ↦ rw full (ground arith)
        | inr room ↦ rw room v.within
      ]

  pub ensure_lem :
      (vec : Vector A) (new_size : ℕ)
      → IsVector vec
      → new_size ≤ 2 ^ 50
      → Represents (dv_ensure_capacity fresh vec new_size) (items vec)
  ensure_lem vec new_size v few =
      let r = dv_ensure_capacity fresh vec new_size in
      let e = ensured fresh exact vec new_size v few in
      (
        record { allocated = e.allocated; within = room_lem vec new_size v; small = e.small },
        ap (λ n. take n r.cells) e.size ∙ e.kept,
      )

  pop_lem :
      (vec : Vector A)
      → IsVector vec
      → Represents (dv_pop vec) (take (length (items vec) - 1) (items vec))
  pop_lem vec v =
      let exactly = length-items_exact vec v in
      let fewer = take-take (vec.size - 1) vec.size vec.cells (omega arith) in
      elim (Bool-cases (ltb 0 vec.size)) [
        | inl some_item ↦
            rw (some_item, exactly)
              (
                record {
                  allocated = v.allocated;
                  within = omega (arith, v.within);
                  small = v.small;
                },
                sym fewer,
              )
        | inr no_item ↦
            let empty : vec.size ≡ 0 = ground arith in
            let none_there : items vec ≡ [] = ap (λ n. take n vec.cells) empty in
            rw no_item (v, none_there ∙ ap (λ l. take (length l - 1) l) (sym none_there))
      ]

  remove_past :
      (vec : Vector A) (pos : ℕ)
      → IsVector vec
      → leb vec.size pos ≡ true
      → Represents (dv_remove_at vec pos) (take pos (items vec) ++ drop (suc pos) (items vec))
  unfolding dv_remove_at
  remove_past vec pos v past =
      let short = length-items vec in
      let reach : vec.size ≤ pos = ground arith in
      rw past (
        v,
        sym (
            ap (λ l. l ++ drop (suc pos) (items vec)) (take-all pos (items vec) (omega arith))
            ∙ ap (λ l. items vec ++ l) (drop-past (suc pos) (items vec) (omega arith))
            ∙ append-nil (items vec)),
      )

  command_lem :
      (c : Command A) (vec : Vector A)
      → IsVector vec
      → vec.size + 1 ≤ 2 ^ 50
      → asked c ≤ 2 ^ 50
      → Represents (on_vector c vec) (on_items c (items vec))
  unfolding on_vector
  command_lem (ensure_capacity new_size) vec v few h = ensure_lem vec new_size v h
  command_lem (push new_item) vec v few h =
      let (valid, same) = items-dv_insert_at fresh exact vec vec.size new_item v few in
      let short = length-items vec in
      rw (dv_push-dv_insert_at vec new_item) (
        valid,
        same
            ∙ ap (λ l. l ++ new_item ∷ drop vec.size (items vec))
                (take-all vec.size (items vec) short)
            ∙ ap (λ l. items vec ++ new_item ∷ l) (drop-past vec.size (items vec) short),
      )
  command_lem pop vec v few h = pop_lem vec v
  command_lem clear vec v few h =
      (record { allocated = v.allocated; within = omega arith; small = v.small }, refl)
  command_lem (insert_at pos new_item) vec v few h =
      items-dv_insert_at fresh exact vec pos new_item v few
  command_lem (remove_at pos) vec v few h = elim (Bool-cases (leb vec.size pos)) [
    | inl past ↦ remove_past vec pos v past
    | inr inside ↦ items-dv_remove_at vec pos v (ground arith)
  ]

  pub calls : List (Command A) → Vector A → Vector A
  calls [] vec = vec
  calls (c ∷ cs) vec = calls cs (on_vector c vec)

  calls_lem :
      (cs : List (Command A)) (vec : Vector A) (xs : List A)
      → length xs + length cs ≤ 2 ^ 50
      → All (λ c. asked c ≤ 2 ^ 50) cs
      → Represents vec xs
      → Represents (calls cs vec) (calls_on_items cs xs)
  unfolding calls calls_on_items
  calls_lem [] vec xs few all r = r
  calls_lem (c ∷ cs) vec xs few (h, all) (v, e) =
      let size = length-items_exact vec v in
      let same = ap length e in
      let (v', e') = command_lem c vec v (omega (arith, few, size, same)) h in
      calls_lem cs (on_vector c vec) (on_items c xs) (omega (arith, few, length-on_items c xs)) all
        (v', e' ∙ ap (on_items c) e)

  -- The vector is its list of items: where `malloc` and `realloc` give as many cells as they are
  -- asked for, a new vector holds after any sequence of at most 2^50 calls that change it, none of
  -- which asks for a capacity above 2^50, the items that the same sequence leaves in a list, and its
  -- memory is as large as its capacity says.
  pub calls-calls_on_items :
      (cs : List (Command A))
      → length cs ≤ 2 ^ 50
      → All (λ c. asked c ≤ 2 ^ 50) cs
      → Represents (calls cs (dv_init fresh)) (calls_on_items cs [])
  calls-calls_on_items cs few all =
      calls_lem cs (dv_init fresh) [] (omega (arith, few)) all
        (record { allocated = exact 4; within = omega arith; small = omega arith }, refl)
