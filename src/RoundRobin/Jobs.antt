-- ===== src/RoundRobin/Jobs.antt =====
-- The job queue of exam/week9/roundRobinScheduling_Skeleton.c, as the list of its processes.
use cab403work.Base.{
  ℕ, ◌≡◌, ◌⊎◌, inl, inr, refl, sym, ap, ◌∙◌, subst, Bool, false, List, [], ◌∷◌, ◌++◌, Option, none,
  some, ==_iff, if◌then◌else◌, arith,
}
use cab403work.Base.Int.{pos, ltb_ℤ, less}
use cab403work.Links.{
  Seg-link_last, Seg-link_id, last_of-append, last_cases, Links, link, behind_prev, head_or, Seg,
  Apart, Distinct, last_of, attach, link_same, Distinct-append_one,
}
use cab403work.RoundRobin.{
  Scheduler, insert_node_job_queue, is_tail, remove_job_queue_head_node, insert_node_to_ready_queue,
  run_slice, time_slice, quantum,
}

-- From the head on come these processes. What the last one points to is left open: the ready queue
-- and earlier rounds write there.
abbrev pub Reaches : Links → Option ℕ → List ℕ → Type 0
Reaches next head [] = head ≡ none
Reaches next head (x ∷ xs) = (end : Option ℕ) × Seg next head (x ∷ xs) end

-- The job queue holds these processes.
pub record Jobs (s : Scheduler) (xs : List ℕ) : Type 0 where
  pub path : Reaches s.next s.job_head xs
  pub tail : s.job_tail ≡ last_of none xs
  pub distinct : Distinct xs

-- The tail of the ready queue is the tail of the job queue, where both have one.
abbrev pub SharedTail : Scheduler → List ℕ → Type 0
SharedTail s [] = Unit {0}
SharedTail s (x ∷ xs) = (s.ready_tail ≡ none) ⊎ (s.ready_tail ≡ s.job_tail)

abbrev pub again : Scheduler → ℕ → Bool
again s process = ltb_ℤ (pos 0) (less (s.burst process) quantum)

not_tail : (a b : ℕ) (xs : List ℕ) → Apart a (b ∷ xs) → is_tail a (last_of (some b) xs) ≡ false
not_tail a b [] (ne, n) = ground (arith, ==_iff a b)
not_tail a b (c ∷ xs) (ne, n) = not_tail a c xs n

-- The state behind the removal and the slice.
abbrev pub rest : Scheduler → ℕ → List ℕ → Scheduler
rest s a [] = record s { job_head = none; job_tail = none; burst = run_slice a s.burst }
rest s a (b ∷ xs) = record s { job_head = s.next a; burst = run_slice a s.burst }

module _ (s : Scheduler) (a : ℕ) where
  pub remove_found :
      s.job_head ≡ some a
      → remove_job_queue_head_node s ≡ (
          if is_tail a s.job_tail
          then record s { job_head = none; job_tail = none }
          else record s { job_head = s.next a })
  unfolding remove_job_queue_head_node
  remove_found e =
      subst
        (λ o. remove_job_queue_head_node (record s { job_head = o }) ≡ (
          if is_tail a s.job_tail
          then record s { job_head = none; job_tail = none }
          else record s { job_head = s.next a }))
        (sym e) refl

  abbrev pub sliced : Scheduler → Scheduler
  sliced r = record r { burst = run_slice a r.burst }

  removed : (xs : List ℕ) → Jobs s (a ∷ xs) → sliced (remove_job_queue_head_node s) ≡ rest s a xs
  removed [] j =
      let e : remove_job_queue_head_node s ≡ record s { job_head = none; job_tail = none } =
        remove_found j.path.1.0 ∙ simp (j.tail, (==_iff a a).1 refl) in
      ap sliced e
  removed (b ∷ xs) j =
      let e : remove_job_queue_head_node s ≡ record s { job_head = s.next a } =
        remove_found j.path.1.0 ∙ simp (j.tail, not_tail a b xs j.distinct.0) in
      ap sliced e

  pub rest-Jobs : (xs : List ℕ) → Jobs s (a ∷ xs) → Jobs (rest s a xs) xs
  rest-Jobs [] j = record { path = refl; tail = refl; distinct = tt }
  rest-Jobs (b ∷ xs) j = record {
    path = (j.path.0, j.path.1.1);
    tail = j.tail;
    distinct = j.distinct.1;
  }

  pub slice_self : run_slice a s.burst a ≡ less (s.burst a) quantum
  slice_self = simp ((==_iff a a).1 refl)

  -- A round, by what stands behind the removal.
  abbrev pub reinserted : Scheduler → Scheduler
  reinserted r = insert_node_to_ready_queue a (insert_node_job_queue a r)

  pub time_slice-removed : time_slice a s ≡ (
      if ltb_ℤ (pos 0) ((sliced (remove_job_queue_head_node s)).burst a)
      then reinserted (sliced (remove_job_queue_head_node s))
      else sliced (remove_job_queue_head_node s))
  unfolding time_slice
  time_slice-removed = refl

  pub rest-burst : (xs : List ℕ) → (rest s a xs).burst ≡ run_slice a s.burst
  rest-burst [] = refl
  rest-burst (b ∷ xs) = refl

  pub time_slice-rest :
      (xs : List ℕ)
      → Jobs s (a ∷ xs)
      → time_slice a s ≡ (if again s a then reinserted (rest s a xs) else rest s a xs)
  time_slice-rest xs j =
      time_slice-removed
      ∙ ap (λ r. if ltb_ℤ (pos 0) (r.burst a) then reinserted r else r) (removed xs j)
      ∙ ap (λ b. if ltb_ℤ (pos 0) b then reinserted (rest s a xs) else rest s a xs)
          (ap (λ f. f a) (rest-burst xs) ∙ slice_self)

Reaches-Seg :
    (next : Links) (head : Option ℕ) (xs : List ℕ)
    → Reaches next head xs
    → (end : Option ℕ) × Seg next head xs end
Reaches-Seg next head [] e = (none, e)
Reaches-Seg next head (x ∷ xs) s = s

Seg-Reaches :
    (next : Links) (head : Option ℕ) (xs : List ℕ) (a : ℕ) (end : Option ℕ)
    → Seg next head (xs ++ a ∷ []) end
    → Reaches next head (xs ++ a ∷ [])
Seg-Reaches next head [] a end s = (end, s)
Seg-Reaches next head (x ∷ xs) a end s = (end, s)

-- A process behind the others.
pub insert-Jobs :
    (s : Scheduler) (xs : List ℕ) (a : ℕ)
    → Jobs s xs
    → Apart a xs
    → Jobs (insert_node_job_queue a s) (xs ++ a ∷ [])
unfolding insert_node_job_queue
insert-Jobs s xs a j n =
    let (end, path) = Reaches-Seg s.next s.job_head xs j.path in
    record {
      path =
          Seg-Reaches (behind_prev s.job_tail a s.next) (head_or s.job_tail a s.job_head) xs a
            (s.next a) (attach s.next s.job_head s.job_tail xs end a j.tail j.distinct n path);
      tail = sym (last_of-append none xs a);
      distinct = Distinct-append_one xs a j.distinct n;
    }

-- Where the ready queue writes.
abbrev Harmless : Scheduler → ℕ → Type 0
Harmless s a =
    (s.ready_tail ≡ none) ⊎ ((r : ℕ) × (s.ready_tail ≡ some r) × ((r ≡ a) ⊎ (s.next r ≡ some a)))

ready_path :
    (s : Scheduler) (a : ℕ) (xs : List ℕ) (end : Option ℕ)
    → Apart a xs
    → Harmless s a
    → Seg s.next s.job_head (xs ++ a ∷ []) end
    → Reaches (behind_prev s.ready_tail a s.next) s.job_head (xs ++ a ∷ [])
ready_path s a xs end n (inl e) p = rw e (Seg-Reaches s.next s.job_head xs a end p)
ready_path s a xs end n (inr (r, e, inl same)) p =
    rw (e, same)
      (Seg-Reaches (link s.next a (some a)) s.job_head xs a (some a)
        (Seg-link_last s.next s.job_head xs a end (some a) n p))
ready_path s a xs end n (inr (r, e, inr there)) p = rw e (
    Seg-Reaches (link s.next r (some a)) s.job_head xs a end
      (Seg-link_id s.next r (some a) s.job_head (xs ++ a ∷ []) end there p))

ready-Jobs :
    (s : Scheduler) (a : ℕ) (xs : List ℕ)
    → Jobs s (xs ++ a ∷ [])
    → Apart a xs
    → Harmless s a
    → Jobs (insert_node_to_ready_queue a s) (xs ++ a ∷ [])
unfolding insert_node_to_ready_queue
ready-Jobs s a xs j n h =
    let (end, path) = Reaches-Seg s.next s.job_head (xs ++ a ∷ []) j.path in
    record { path = ready_path s a xs end n h path; tail = j.tail; distinct = j.distinct }

-- A process that goes on, behind the others in the job queue.
rest-Harmless :
    (s : Scheduler) (a : ℕ) (xs : List ℕ)
    → Jobs s (a ∷ xs)
    → SharedTail s (a ∷ xs)
    → Harmless (insert_node_job_queue a (rest s a xs)) a
unfolding insert_node_job_queue
rest-Harmless s a [] j (inl e) = inl e
rest-Harmless s a (b ∷ xs) j (inl e) = inl e
rest-Harmless s a [] j (inr e) = inr (a, e ∙ j.tail, inl refl)
rest-Harmless s a (b ∷ xs) j (inr e) = elim (last_cases (b ∷ xs)) [
  | inl none_there ↦ absurd cc
  | inr (fr, l, snoc) ↦
      let last : s.job_tail ≡ some l = j.tail ∙ ap (last_of none) snoc ∙ last_of-append none fr l in
      inr (l, e ∙ last, inr (rw last (link_same s.next l (some a))))
]

pub reinserted-Jobs :
    (s : Scheduler) (a : ℕ) (xs : List ℕ)
    → Jobs s (a ∷ xs)
    → SharedTail s (a ∷ xs)
    → Jobs (reinserted s a (rest s a xs)) (xs ++ a ∷ [])
reinserted-Jobs s a xs j h =
    ready-Jobs (insert_node_job_queue a (rest s a xs)) a xs
      (insert-Jobs (rest s a xs) xs a (rest-Jobs s a xs j) j.distinct.0) j.distinct.0
      (rest-Harmless s a xs j h)
