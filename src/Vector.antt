-- ===== src/Vector.antt =====
-- assignment1/vector/dbl_vector.c: a vector that grows. `cells` is the allocated memory behind
-- `data`; what `malloc` and `realloc` leave in `n` new cells is the parameter `fresh n`. They succeed.
pub mod Contents
pub mod Copy
pub mod Insertion
pub mod Interface
use cab403work.Base.{
  ℕ, zero, suc, ◌+◌, ◌-◌, ◌*◌, ◌/◌, ◌%◌, ◌^◌, Bool, List, [], ◌∷◌, ◌++◌, ltb, leb, if◌then◌else◌,
  length, take, set, get_elem?, Option, none, some,
}

pub record Vector {ℓ} (A : Type ℓ) : Type ℓ where
  pub size : ℕ
  pub capacity : ℕ
  pub cells : List A

-- `data[i] = x`, where `x` is a cell that was read; none was read out of bounds.
abbrev pub assign {ℓ} : {A : Type ℓ} → List A → ℕ → Option A → List A
assign cells i none = cells
assign cells i (some x) = set cells i x

-- `for (i = loc + n; i > loc; i--) data[i] = data[i - 1]`
unfoldable pub shift_up {ℓ} : {A : Type ℓ} → ℕ → ℕ → List A → List A
shift_up loc zero cells = cells
shift_up loc (suc n) cells = shift_up loc n (assign cells (loc + suc n) (get_elem? cells (loc + n)))

-- `for (i = pos; i < pos + n; i++) data[i] = data[i + 1]`
unfoldable pub shift_down {ℓ} : {A : Type ℓ} → ℕ → ℕ → List A → List A
shift_down pos zero cells = cells
shift_down pos (suc n) cells = shift_down (suc pos) n (assign cells pos (get_elem? cells (suc pos)))

abbrev pub dv_pop {ℓ} : {A : Type ℓ} → Vector A → Vector A
dv_pop vec = if ltb 0 vec.size then record vec { size = vec.size - 1 } else vec

abbrev pub dv_clear {ℓ} : {A : Type ℓ} → Vector A → Vector A
dv_clear vec = record vec { size = 0 }

-- The last item, and none for NAN.
abbrev pub dv_last {ℓ} : {A : Type ℓ} → Vector A → Option A
dv_last vec = if ltb 0 vec.size then get_elem? vec.cells (vec.size - 1) else none

-- `dv_destroy`; the memory is freed.
abbrev pub dv_destroy {ℓ} : {A : Type ℓ} → Vector A → Vector A
dv_destroy vec = record { size = 0; capacity = 0; cells = [] }

-- `for (; i < size; i++) callback(data[i], info)`, with `n` rounds to go; `info` is what the
-- callback makes of it.
unfoldable pub visit {ℓ κ} : {A : Type ℓ} {B : Type κ} → (A → B → B) → ℕ → ℕ → List A → B → B
visit callback i zero cells info = info
visit callback i (suc n) cells info = elim (get_elem? cells i) [
  | none ↦ info
  | some x ↦ visit callback (suc i) n cells (callback x info)
]

unfoldable pub dv_foreach {ℓ κ} : {A : Type ℓ} {B : Type κ} → Vector A → (A → B → B) → B → B
unfolding visit
dv_foreach vec callback info = visit callback 0 vec.size vec.cells info

-- `for (; i < size; i++) dest->data[i] = vec->data[i]`, with `n` rounds to go.
unfoldable pub copy_cells {ℓ} : {A : Type ℓ} → ℕ → ℕ → List A → List A → List A
copy_cells i zero cells dest = dest
copy_cells i (suc n) cells dest = copy_cells (suc i) n cells (assign dest i (get_elem? cells i))

unfoldable pub dv_remove_at {ℓ} : {A : Type ℓ} → Vector A → ℕ → Vector A
unfolding shift_down
dv_remove_at vec pos =
    if leb vec.size pos
    then vec
    else record vec { cells = shift_down pos (vec.size - 1 - pos) vec.cells; size = vec.size - 1 }

module _ {ℓ} {A : Type ℓ} (fresh : ℕ → List A) where
  abbrev pub dv_init : Vector A
  dv_init = record { size = 0; capacity = 4; cells = fresh 4 }

  -- `capacity * 1.25`, as a `size_t`.
  abbrev pub grown : ℕ → ℕ → ℕ
  grown capacity new_size =
      let new_capacity = capacity * 5 / 4 in
      if ltb new_capacity new_size then new_size else new_capacity

  -- What `realloc` to so many cells leaves: the old ones as far as they fit, and new ones.
  abbrev pub reallocated : ℕ → List A → List A
  reallocated n cells = take n cells ++ fresh (n - length cells)

  -- `new_capacity * sizeof(double)` is a `size_t`.
  unfoldable pub new_mem_size : ℕ → ℕ
  new_mem_size new_capacity = new_capacity * 8 % 2 ^ 64

  unfoldable pub dv_ensure_capacity : Vector A → ℕ → Vector A
  unfolding new_mem_size
  dv_ensure_capacity vec new_size =
      let new_capacity = grown vec.capacity new_size in
      if ltb vec.capacity new_size
      then record vec {
        cells = reallocated (new_mem_size new_capacity / 8) vec.cells;
        capacity = new_capacity;
      }
      else vec

  unfoldable pub dv_push : Vector A → A → Vector A
  unfolding dv_ensure_capacity
  dv_push vec new_item =
      let old_size = vec.size in
      let vec' = dv_ensure_capacity (record vec { size = old_size + 1 }) (old_size + 1) in
      record vec' { cells = set vec'.cells old_size new_item }

  unfoldable pub dv_insert_at : Vector A → ℕ → A → Vector A
  unfolding dv_ensure_capacity shift_up
  dv_insert_at vec pos new_item =
      let old_size = vec.size in
      let loc = if ltb old_size pos then old_size else pos in
      let vec' = dv_ensure_capacity vec (old_size + 1) in
      record vec' {
        cells = set (shift_up loc (vec'.size - loc) vec'.cells) loc new_item;
        size = old_size + 1;
      }

  unfoldable pub dv_copy : Vector A → Vector A → Vector A
  unfolding dv_ensure_capacity copy_cells
  dv_copy vec dest =
      let dest' = dv_ensure_capacity (record dest { size = vec.size }) vec.size in
      record dest' { cells = copy_cells 0 vec.size vec.cells dest'.cells }
