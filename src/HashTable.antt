-- ===== src/HashTable.antt =====
-- week5/workshop5/hashtables/hashtable_search.c: a hash table from short texts to integers, with
-- a search for a value by four threads. A bucket is the list of its items from the head on.
pub mod Lookup
pub mod Search
use cab403work.Base.{
  ℕ, zero, suc, ◌+◌, ◌-◌, ◌*◌, ◌/◌, ◌%◌, ◌^◌, Bool, true, false, List, [], ◌∷◌, ◌++◌, ◌==◌, ltb,
  if◌then◌else◌, take, get_or, set, replicate, Option, none, some,
}
use cab403work.Base.Int.{ℤ}
use cab403work.Base.Text.{Bytes}
use cab403work.Libc.{streq}

-- `key` holds the bytes before its NUL.
pub record Item : Type 0 where
  pub key : Bytes
  pub value : ℤ

pub record Htab : Type 0 where
  pub buckets : List (List Item)
  pub size : ℕ

-- `calloc` of `n` null pointers, taken to succeed.
abbrev pub htab_init : ℕ → Htab
htab_init n = record { buckets = replicate n []; size = n }

-- A `char` as an `int`, which is signed, added to a `size_t` of 64 bits.
abbrev pub widened : ℕ → ℕ
widened c = if ltb c 128 then c else 2 ^ 64 - 256 + c

-- `((hash << 5) + hash) + c`
abbrev pub djb_step : ℕ → ℕ → ℕ
djb_step hash c = ((hash * 2 ^ 5 % 2 ^ 64 + hash) % 2 ^ 64 + widened c) % 2 ^ 64

-- The loop of `djb_hash`.
unfoldable pub djb_from : ℕ → Bytes → ℕ
djb_from hash [] = hash
djb_from hash (c ∷ s) = djb_from (djb_step hash c) s

unfoldable pub djb_hash : Bytes → ℕ
djb_hash s = djb_from 5381 s

unfoldable pub htab_index : Htab → Bytes → ℕ
htab_index h key = djb_hash key % h.size

unfoldable pub htab_bucket : Htab → Bytes → List Item
htab_bucket h key = get_or h.buckets (htab_index h key) []

-- The loop of `htab_find`.
unfoldable pub find_in : Bytes → List Item → Option Item
find_in key [] = none
find_in key (i ∷ next) = let rest = find_in key next in if streq i.key key then some i else rest

unfoldable pub htab_find : Htab → Bytes → Option Item
htab_find h key = find_in key (htab_bucket h key)

-- Whether `malloc` succeeds is the first argument; a failure returns false. The `strncpy` copies
-- at most four bytes.
unfoldable pub htab_add : Bool → Htab → Bytes → ℤ → Bool × Htab
htab_add false h key value = (false, h)
htab_add true h key value =
    let newhead : Item = record { key = take 4 key; value = value } in
    let items = newhead ∷ htab_bucket h key in
    (true, record h { buckets = set h.buckets (htab_index h key) items })

-- The loop of `htab_delete`: the first item with the key is unlinked.
unfoldable pub delete_in : Bytes → List Item → List Item
delete_in key [] = []
delete_in key (current ∷ next) =
    if streq current.key key then next else current ∷ delete_in key next

unfoldable pub htab_delete : Htab → Bytes → Htab
htab_delete h key = record h {
  buckets = set h.buckets (htab_index h key) (delete_in key (htab_bucket h key));
}

-- `bucket->value == data->search`
abbrev pub same_value : ℤ → ℤ → Bool
same_value (ℤ.pos m) (ℤ.pos n) = m == n
same_value (ℤ.negsuc m) (ℤ.negsuc n) = m == n
same_value (ℤ.pos m) (ℤ.negsuc n) = false
same_value (ℤ.negsuc m) (ℤ.pos n) = false

-- The keys that the inner loop of a thread prints.
unfoldable pub printed : ℤ → List Item → List Bytes
printed search [] = []
printed search (i ∷ next) =
    let rest = printed search next in if same_value i.value search then i.key ∷ rest else rest

-- `htab_search_value_thread` from the bucket `i` on, with that many to go.
unfoldable pub search_from : ℤ → List (List Item) → ℕ → ℕ → List Bytes
search_from search buckets zero i = []
search_from search buckets (suc n) i =
    printed search (get_or buckets i []) ++ search_from search buckets n (suc i)

abbrev pub htab_search_value_thread : Htab → ℤ → ℕ → ℕ → List Bytes
htab_search_value_thread h search start end = search_from search h.buckets (end - start) start

-- What each of the four threads prints.
unfoldable pub htab_search_value : Htab → ℤ → List (List Bytes)
unfolding search_from
htab_search_value h search =
    let buckets_per_thread = h.size / 4 in
    htab_search_value_thread h search (0 * buckets_per_thread) (1 * buckets_per_thread)
    ∷ htab_search_value_thread h search (1 * buckets_per_thread) (2 * buckets_per_thread)
    ∷ htab_search_value_thread h search (2 * buckets_per_thread) (3 * buckets_per_thread)
    ∷ htab_search_value_thread h search (3 * buckets_per_thread) h.size
    ∷ []
