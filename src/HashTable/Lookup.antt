-- ===== src/HashTable/Lookup.antt =====
-- What week5/workshop5/hashtables/hashtable_search.c finds after it adds and deletes.
use cab403work.Base.{
  take-all, ◌<◌, ◌≤◌, ◌≡◌, ◌≢◌, refl, sym, ap, ◌∙◌, inl, inr, Bool-cases, true, List, [], ◌∷◌,
  arith, length, take, set, get_or-set_self, get_or-set_ne, set-set, set-get_or, some,
}
use native.Mathlib.Decide.{ℕ_discrete}
use cab403work.Base.Int.{ℤ}
use cab403work.Base.Text.{Bytes}
use cab403work.Libc.{streq, streq_iff, streq_ne, streq_refl}
use cab403work.HashTable.{
  Item, Htab, htab_index, htab_bucket, find_in, htab_find, htab_add, delete_in, htab_delete,
}

-- There is a bucket for every index.
pub record IsTable (h : Htab) : Type 0 where
  pub all : length h.buckets ≡ h.size
  pub some_bucket : 0 < h.size

htab_index-lt : (h : Htab) (key : Bytes) → IsTable h → htab_index h key < length h.buckets
unfolding htab_index
htab_index-lt h key t = omega arith

-- Two tables that differ only in the bucket of `key`, where the lookups of another key agree.
other_key :
    (h : Htab) (key k : Bytes) (items : List Item)
    → IsTable h
    → find_in k items ≡ find_in k (htab_bucket h key)
    → htab_find (record h { buckets = set h.buckets (htab_index h key) items }) k ≡ htab_find h k
unfolding htab_find htab_bucket htab_index
other_key h key k items t e = elim (ℕ_discrete (htab_index h key) (htab_index h k)) [
  | yes same ↦
      rw (sym same, get_or-set_self h.buckets (htab_index h key) items [] (htab_index-lt h key t)) e
  | no other ↦
      ap (find_in k) (get_or-set_ne h.buckets (htab_index h key) (htab_index h k) items [] other)
]

-- Adding a key of at most three bytes to a table with a bucket for every index, where the
-- allocation succeeds: the key is found with its new value, and every other key is found as before.
pub htab_find-htab_add :
    (h : Htab) (key k : Bytes) (value : ℤ)
    → IsTable h
    → length key ≤ 3
    → (htab_find (htab_add true h key value).1 key ≡ some (record { key = key; value = value }))
      × (k ≢ key → htab_find (htab_add true h key value).1 k ≡ htab_find h k)
unfolding htab_find htab_bucket htab_index find_in htab_add
htab_find-htab_add h key k value t w =
    let newhead : Item = record { key = take 4 key; value = value } in
    (
      rw
          (
            get_or-set_self h.buckets (htab_index h key) (newhead ∷ htab_bucket h key) []
                (htab_index-lt h key t),
            take-all 4 key (omega arith),
            streq_refl key,
          )
          refl,
      λ n.
          other_key h key k (newhead ∷ htab_bucket h key) t
            (rw (take-all 4 key (omega arith), streq_ne key k (λ q. n (sym q))) refl),
    )

-- Deleting a key of at most three bytes right after adding it, where the allocation succeeds,
-- leaves a table with a bucket for every index as it was before both.
htab_delete-htab_add :
    (h : Htab) (key : Bytes) (value : ℤ)
    → IsTable h
    → length key ≤ 3
    → htab_delete (htab_add true h key value).1 key ≡ h
unfolding htab_delete htab_add htab_bucket htab_index delete_in
htab_delete-htab_add h key value t w =
    let newhead : Item = record { key = take 4 key; value = value } in
    rw
      (
        get_or-set_self h.buckets (htab_index h key) (newhead ∷ htab_bucket h key) []
            (htab_index-lt h key t),
        take-all 4 key (omega arith),
        streq_refl key,
      )
      (ap (λ bs. record h { buckets = bs })
        (set-set h.buckets (htab_index h key) _ (htab_bucket h key)
          ∙ set-get_or h.buckets (htab_index h key) []))

find_in-delete_in :
    (key k : Bytes) (items : List Item)
    → k ≢ key
    → find_in k (delete_in key items) ≡ find_in k items
unfolding find_in delete_in
find_in-delete_in key k [] n = refl
find_in-delete_in key k (i ∷ next) n = elim (Bool-cases (streq i.key key)) [
  | inl here ↦
      let e = (streq_iff i.key key).0 here in rw (here, streq_ne i.key k (λ q. n (sym q ∙ e)))
  | inr not_here ↦ rw (not_here, find_in-delete_in key k next n)
]

-- Deleting a key from a table with a bucket for every index leaves the lookups of every other key
-- as they were.
htab_find-htab_delete :
    (h : Htab) (key k : Bytes)
    → IsTable h
    → k ≢ key
    → htab_find (htab_delete h key) k ≡ htab_find h k
unfolding htab_delete
htab_find-htab_delete h key k t n =
    other_key h key k (delete_in key (htab_bucket h key)) t (find_in-delete_in key k _ n)
