-- ===== src/Tests/Tables.antt =====
-- Runs of week5/workshop5/hashtables/hashtable_search.c and of assignment1/vector/dbl_vector.c.
use cab403work.Base.{
  replicate, List, length-replicate, arith, ◌≡◌, ◌≢◌, refl, ℕ, [], ◌∷◌, some, true,
}
use cab403work.Base.Int.{pos}
use cab403work.Base.Text.{codes}
use cab403work.HashTable.{Htab, htab_find, htab_add, htab_search_value, htab_search_value_thread}
use cab403work.HashTable.Lookup.{IsTable, htab_find-htab_add}
use cab403work.HashTable.Search.{all_of, htab_search_value-htab_search_value_thread}
use cab403work.Vector.Interface.{
  Command, push, pop, insert_at, remove_at, Represents, calls, calls_on_items, calls-calls_on_items,
}
use cab403work.Vector.{Vector, dv_init}
use cab403work.Vector.Contents.{IsVector}

-- Five buckets, with an item in the first and two in the last.
abbrev five_buckets : Htab
five_buckets = record {
  buckets =
      (record { key = codes "AAA"; value = pos 7 } ∷ [])
      ∷ []
      ∷ []
      ∷ []
      ∷ (record { key = codes "BAA"; value = pos 7 }
          ∷ record { key = codes "CAA"; value = pos 3 }
          ∷ [])
      ∷ [];
  size = 5;
}

five_buckets-IsTable : IsTable five_buckets
five_buckets-IsTable = record { all = refl; some_bucket = omega arith }

htab_find-htab_add_example :
    (htab_find (htab_add true five_buckets (codes "XYZ") (pos 4)).1 (codes "XYZ")
      ≡ some (record { key = codes "XYZ"; value = pos 4 }))
    × (codes "AAA" ≢ codes "XYZ"
        → htab_find (htab_add true five_buckets (codes "XYZ") (pos 4)).1 (codes "AAA")
          ≡ htab_find five_buckets (codes "AAA"))
htab_find-htab_add_example =
    htab_find-htab_add five_buckets (codes "XYZ") (codes "AAA") (pos 4) five_buckets-IsTable
      (omega arith)

htab_search_value-htab_search_value_thread_example :
    all_of (htab_search_value five_buckets (pos 7))
    ≡ htab_search_value_thread five_buckets (pos 7) 0 5
htab_search_value-htab_search_value_thread_example =
    htab_search_value-htab_search_value_thread five_buckets (pos 7)

abbrev full_vector : Vector ℕ
full_vector = record { size = 4; capacity = 4; cells = 1 ∷ 2 ∷ 3 ∷ 4 ∷ [] }

full_vector-IsVector : IsVector full_vector
full_vector-IsVector = record { allocated = refl; within = omega arith; small = omega arith }

abbrev some_calls : List (Command ℕ)
some_calls = push 5 ∷ insert_at 0 6 ∷ push 7 ∷ remove_at 1 ∷ pop ∷ []

calls-calls_on_items_example :
    Represents
      (calls
        (λ n. replicate n 0)
        (λ n. length-replicate n 0)
        some_calls
        (dv_init (λ n. replicate n 0)))
      (calls_on_items some_calls [])
calls-calls_on_items_example =
    calls-calls_on_items (λ n. replicate n 0) (λ n. length-replicate n 0) some_calls (omega arith)
      (omega arith, (omega arith, (omega arith, (omega arith, (omega arith, tt)))))
