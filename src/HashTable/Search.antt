-- ===== src/HashTable/Search.antt =====
-- The search by threads of week5/workshop5/hashtables/hashtable_search.c.
use cab403work.Base.{
  ℕ, zero, suc, ◌+◌, ◌-◌, ◌*◌, ◌/◌, ◌≤◌, ◌≡◌, refl, ap, ◌∙◌, List, [], ◌∷◌, ◌++◌, append_assoc,
  append-nil, arith, get_or,
}
use cab403work.Base.Int.{ℤ}
use cab403work.Base.Text.{Bytes}
use cab403work.HashTable.{
  Item, Htab, printed, search_from, htab_search_value_thread, htab_search_value,
}

abbrev pub all_of : List (List Bytes) → List Bytes
all_of [] = []
all_of (l ∷ ls) = l ++ all_of ls

search_from-append :
    (wanted : ℤ) (buckets : List (List Item)) (m n i j k : ℕ)
    → j ≡ m + i
    → k ≡ m + n
    → search_from wanted buckets m i ++ search_from wanted buckets n j
      ≡ search_from wanted buckets k i
unfolding search_from
search_from-append wanted buckets zero n i j k e f = rw (unfold_zero j i e, unfold_zero k n f) refl
  where
    unfold_zero : (a b : ℕ) → a ≡ 0 + b → a ≡ b
    unfold_zero a b q = omega arith
search_from-append wanted buckets (suc m) n i j zero e f = absurd (omega arith)
search_from-append wanted buckets (suc m) n i j (suc k) e f =
    append_assoc (printed wanted (get_or buckets i [])) (search_from wanted buckets m (suc i))
      (search_from wanted buckets n j)
    ∙ ap (λ l. printed wanted (get_or buckets i []) ++ l)
        (search_from-append wanted buckets m n (suc i) j k (omega arith) (omega arith))

-- Two ranges that meet.
joined :
    (h : Htab) (wanted : ℤ) (start middle end : ℕ)
    → start ≤ middle
    → middle ≤ end
    → htab_search_value_thread h wanted start middle ++ htab_search_value_thread h wanted middle end
      ≡ htab_search_value_thread h wanted start end
joined h wanted start middle end p q =
    search_from-append wanted h.buckets (middle - start) (end - middle) start middle (end - start)
      (omega arith) (omega arith)

-- Each thread's range begins where the range before it ends, and the last ends at the size, also
-- where it is no multiple of four: the keys printed by the four threads are together the keys that
-- one thread would print that searches all buckets.
pub htab_search_value-htab_search_value_thread :
    (h : Htab) (wanted : ℤ)
    → all_of (htab_search_value h wanted) ≡ htab_search_value_thread h wanted 0 h.size
unfolding htab_search_value
htab_search_value-htab_search_value_thread h wanted =
    let b = h.size / 4 in
    let part = htab_search_value_thread h wanted in
    rw
      (
        append-nil (part (3 * b) h.size),
        joined h wanted (2 * b) (3 * b) h.size (omega arith) (omega arith),
        joined h wanted (1 * b) (2 * b) h.size (omega arith) (omega arith),
        joined h wanted (0 * b) (1 * b) h.size (omega arith) (omega arith),
      )
      (ap (λ n. part n h.size) (omega arith))
