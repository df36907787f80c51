-- ===== src/Controller/Queue/Pointers/Loop.antt =====
-- The loop of assignment2/controller.c, `insert_floors_into_queue`, on the pointers and on the lists.
use mathlib.Core.List.{map-append}
use cab403work.Base.{
  ℕ, zero, suc, ◌<◌, ◌≡◌, ◌≢◌, refl, sym, inl, inr, List, [], ◌∷◌, ◌++◌, map, append_assoc, none,
  some, subst, arith, Bool-cases, true, false, length,
}
use cab403work.Links.{Distinct, Apart-append, Distinct-insert}
use cab403work.Controller.State.{Direction, same_direction, FloorNode}
use cab403work.Controller.Queue.{
  past, same_stop, From, pending, duplicate, linked, place_from, front_with_from, walk,
}
use cab403work.Controller.Queue.Pointers.{Cursor, link_in, put_from, walk_round, walk_loop}
use cab403work.Controller.Queue.Pointers.Walk.{link_in-At}
use cab403work.Controller.Queue.Pointers.Ends.{
  Placed, waiting, left_out, put, from_of, finish_lem, Leads,
}
use cab403work.Controller.Queue.Pointers.Refinement.{
  Is, Ends, then_to, then_to_walk, go_on, then_to-Ends,
}

module _ (node : ℕ → FloorNode) (direction : Direction) (f t : ℕ) (ne : f ≢ t) where
  module _ (n : ℕ) (ih : Leads node direction f t ne n) (c : ℕ) (cs : List ℕ)
      (fuel : length cs < n) where
    -- The body of the loop, and the rounds behind it.
    abbrev Round : Cursor → List FloorNode → From → Type 0
    Round s front from =
        Ends node direction f t ne (then_to node direction f t ne n c s)
          (then_to_walk node direction f t ne front from (node c) (map node cs))

    -- The start has its place already, or is left where it waits.
    kept : (s : Cursor) → s.from_inserted ≡ true → put_from node direction f t c s ≡ s
    unfolding put_from
    kept s e = simp e

    put_same :
        (s : Cursor)
        → s.from_inserted ≡ false
        → past direction (node c) (node f) ≡ true
        → same_stop (node c) (node f) ≡ true
        → put_from node direction f t c s ≡ record s { from_inserted = true }
    unfolding put_from
    put_same s e behind same = simp (e, behind, same)

    put_other :
        (s : Cursor)
        → s.from_inserted ≡ false
        → past direction (node c) (node f) ≡ true
        → same_stop (node c) (node f) ≡ false
        → put_from node direction f t c s ≡ record (link_in f s) { from_inserted = true }
    unfolding put_from
    put_other s e behind other = simp (e, behind, other)

    stays :
        (s : Cursor) (front : List ℕ)
        → Is node direction f t ne s front (c ∷ cs) waiting
        → past direction (node c) (node f) ≡ false
        → Round (put_from node direction f t c s) (map node front) pending
    unfolding then_to then_to_walk put_from
    stays s front r before =
        subst
          (λ s'. Ends node direction f t ne s' (
            walk direction (node f) (node t) (map node front ++ node c ∷ []) pending (map node cs)))
          (sym (simp (r.flag, before)))
          (go_on node direction f t ne n ih c cs fuel s front waiting r)

    duplicates :
        (s : Cursor) (front : List ℕ)
        → Is node direction f t ne s front (c ∷ cs) waiting
        → Round (record s { from_inserted = true }) (map node front) duplicate
    duplicates s front r =
        then_to-Ends node direction f t ne n ih c cs fuel (record s { from_inserted = true }) front
          left_out refl
          (record {
            at = record {
              prev = r.at.prev;
              path = r.at.path;
              ahead = r.at.ahead;
              distinct = r.at.distinct;
            };
            fact = r.fact;
            t_front = r.t_front;
            t_rest = r.t_rest;
            flag = refl;
            open_end = r.open_end;
          })

    links :
        (s : Cursor) (front : List ℕ)
        → Is node direction f t ne s front (c ∷ cs) waiting
        → Round
            (record (link_in f s) { from_inserted = true })
            (map node front ++ node f ∷ [])
            (linked (map node front))
    unfolding link_in
    links s front r =
        let d =
          subst Distinct (sym (append_assoc front (f ∷ []) (c ∷ cs)))
            (Distinct-insert front f (c ∷ cs) r.fact.0 r.fact.1 r.at.distinct) in
        let h = link_in-At s front (c ∷ cs) f r.at r.fact.0 r.fact.1 d in
        subst
          (λ l. Round (record (link_in f s) { from_inserted = true }) l (linked (map node front)))
          (map-append node front (f ∷ []))
          (then_to-Ends node direction f t ne n ih c cs fuel
            (record (link_in f s) { from_inserted = true }) (front ++ f ∷ []) (put front) refl
            (record {
              at = record { prev = h.prev; path = h.path; ahead = h.ahead; distinct = h.distinct };
              fact = ([], refl);
              t_front = Apart-append t front (f ∷ []) r.t_front (ne, tt);
              t_rest = r.t_rest;
              flag = refl;
              open_end = r.open_end;
            }))

    put_from-Ends :
        (s : Cursor) (front : List ℕ) (p : Placed)
        → Is node direction f t ne s front (c ∷ cs) p
        → Round
            (put_from node direction f t c s)
            (front_with_from direction
              (node f)
              (node t)
              (map node front)
              (from_of node direction f t ne p)
              (node c))
            (place_from direction
              (node f)
              (node t)
              (map node front)
              (from_of node direction f t ne p)
              (node c))
    put_from-Ends s front left_out r =
        rw (kept s r.flag)
          (then_to-Ends node direction f t ne n ih c cs fuel s front left_out refl r)
    put_from-Ends s front (put before) r =
        rw (kept s r.flag)
          (then_to-Ends node direction f t ne n ih c cs fuel s front (put before) refl r)
    put_from-Ends s front waiting r = elim (Bool-cases (past direction (node c) (node f))) [
      | inr before ↦ rw before (stays s front r before)
      | inl behind ↦ elim (Bool-cases (same_stop (node c) (node f))) [
        | inl same ↦ rw (put_same s r.flag behind same, behind, same) (duplicates s front r)
        | inr other ↦ rw (put_other s r.flag behind other, behind, other) (links s front r)
      ]
    ]

    -- One round of the loop is the body with the rounds behind it.
    walk_loop-round :
        (s : Cursor)
        → s.curr ≡ some c
        → same_direction (node c).direction direction ≡ true
        → walk_loop node direction f t (suc n) s
          ≡ then_to node direction f t ne n c (put_from node direction f t c s)
    unfolding walk_loop then_to walk_round
    walk_loop-round s e same =
        subst
          (λ o.
            walk_loop node direction f t (suc n) (record s { curr = o })
            ≡ then_to node direction f t ne n c
                (put_from node direction f t c (record s { curr = o })))
          (sym e) (rw same refl)

    walk_loop-other_way :
        (s : Cursor)
        → s.curr ≡ some c
        → same_direction (node c).direction direction ≡ false
        → walk_loop node direction f t (suc n) s ≡ s
    unfolding walk_loop
    walk_loop-other_way s e other =
        subst
          (λ o.
            walk_loop node direction f t (suc n) (record s { curr = o }) ≡ record s { curr = o })
          (sym e) (rw other refl)

    walk-round :
        (front : List FloorNode) (from : From)
        → same_direction (node c).direction direction ≡ true
        → walk direction (node f) (node t) front from (node c ∷ map node cs)
          ≡ then_to_walk node direction f t ne
              (front_with_from direction (node f) (node t) front from (node c))
              (place_from direction (node f) (node t) front from (node c))
              (node c)
              (map node cs)
    unfolding walk then_to_walk
    walk-round front from same = rw same refl

    other_way :
        (s : Cursor) (front : List ℕ) (p : Placed)
        → Is node direction f t ne s front (c ∷ cs) p
        → same_direction (node c).direction direction ≡ false
        → Ends node direction f t ne (walk_loop node direction f t (suc n) s) (
            walk direction
              (node f)
              (node t)
              (map node front)
              (from_of node direction f t ne p)
              (node c ∷ map node cs))
    unfolding walk
    other_way s front p r other =
        rw (walk_loop-other_way s r.at.ahead.0 other, other)
          (finish_lem node direction f t ne s front (c ∷ cs) r.at p r.fact r.t_front r.t_rest r.flag
            r.open_end)

  walk_loop-end : (n : ℕ) (s : Cursor) → s.curr ≡ none → walk_loop node direction f t (suc n) s ≡ s
  unfolding walk_loop
  walk_loop-end n s e =
      subst
        (λ o. walk_loop node direction f t (suc n) (record s { curr = o }) ≡ record s { curr = o })
        (sym e) refl

  pub walk_loop-Ends : (n : ℕ) → Leads node direction f t ne n
  unfolding walk
  walk_loop-Ends zero s front rest p r fuel = absurd (omega arith)
  walk_loop-Ends (suc n) s front [] p r fuel = rw (walk_loop-end n s r.at.ahead) (
      finish_lem node direction f t ne s front [] r.at p r.fact r.t_front r.t_rest r.flag
        r.open_end)
  walk_loop-Ends (suc n) s front (c ∷ cs) p r fuel =
      elim (Bool-cases (same_direction (node c).direction direction)) [
        | inr other ↦ other_way n (walk_loop-Ends n) c cs (omega arith) s front p r other
        | inl same ↦
            rw
              (
                walk_loop-round n (walk_loop-Ends n) c cs (omega arith) s r.at.ahead.0 same,
                walk-round n (walk_loop-Ends n) c cs (omega arith) (map node front)
                    (from_of node direction f t ne p) same,
              )
              (put_from-Ends n (walk_loop-Ends n) c cs (omega arith) s front p r)
      ]
