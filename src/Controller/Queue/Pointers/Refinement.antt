-- ===== src/Controller/Queue/Pointers/Refinement.antt =====
-- The pointers of assignment2/controller.c, `insert_floors_into_queue`, against the lists.
use mathlib.Core.List.{map-append}
use cab403work.Base.{
  ℕ, ◌<◌, ◌≡◌, ◌≢◌, refl, sym, ◌∙◌, inl, inr, List, [], ◌∷◌, ◌++◌, map, append_assoc, subst, Bool,
  Bool-cases, true, false, not, ◌&&◌, if◌then◌else◌, length,
}
use cab403work.Links.{Distinct, Distinct-insert}
use cab403work.Controller.State.{Direction, FloorNode}
use cab403work.Controller.Queue.{past, same_stop, From, from_inserted, Walk, walk, finished}
use cab403work.Controller.Queue.Pointers.{Cursor, link_in, put_to, walk_loop}
use cab403work.Controller.Queue.Pointers.Walk.{link_in-At}
use cab403work.Controller.Queue.Pointers.Ends.{
  Placed, waiting, left_out, put, placed_flag, from_of, fin, Result, done_lem, advance, Leads,
  Ready, advance-Ready,
}

module _ (node : ℕ → FloorNode) (direction : Direction) (f t : ℕ) (ne : f ≢ t) where
  abbrev pub Is : Cursor → List ℕ → List ℕ → Placed → Type 0
  Is = Ready node direction f t ne

  abbrev pub Ends : Cursor → Walk → Type 0
  Ends s w =
      Result node direction f t ne (fin node direction f t ne s)
        (finished direction (node f) (node t) w)

  -- The rest of the body of the loop at `c`, behind the first test.
  unfoldable pub then_to : ℕ → ℕ → Cursor → Cursor
  then_to n c s =
      let (s', on) : Cursor × Bool =
        if s.from_inserted && not s.to_inserted && past direction (node c) (node t)
        then (put_to node direction f t c s, false)
        else (advance node direction f t ne c s, true) in
      if on then walk_loop node direction f t n s' else s'

  unfoldable pub then_to_walk : List FloorNode → From → FloorNode → List FloorNode → Walk
  then_to_walk front from curr rest =
      if from_inserted from && past direction curr (node t)
      then record {
        front = if same_stop curr (node t) then front else front ++ node t ∷ [];
        from = from;
        to_inserted = true;
        rest = curr ∷ rest;
      }
      else walk direction (node f) (node t) (front ++ curr ∷ []) from rest

  module _ (n : ℕ) (ih : Leads node direction f t ne n) (c : ℕ) (cs : List ℕ)
      (fuel : length cs < n) where
    pub go_on :
        (s : Cursor) (front : List ℕ) (p : Placed)
        → Is s front (c ∷ cs) p
        → Ends (walk_loop node direction f t n (advance node direction f t ne c s)) (
            walk direction
              (node f)
              (node t)
              (map node front ++ node c ∷ [])
              (from_of node direction f t ne p)
              (map node cs))
    go_on s front p r =
        subst
          (λ l.
            Ends (walk_loop node direction f t n (advance node direction f t ne c s))
              (walk direction (node f) (node t) l (from_of node direction f t ne p) (map node cs)))
          (map-append node front (c ∷ []))
          (ih (advance node direction f t ne c s) (front ++ c ∷ []) cs p
            (advance-Ready node direction f t ne s front c cs p r) fuel)

    module _ (s : Cursor) (front : List ℕ) (p : Placed) (placed : placed_flag p ≡ true)
        (r : Is s front (c ∷ cs) p) where
      from_flag :
          (q : Placed)
          → placed_flag q ≡ true
          → from_inserted (from_of node direction f t ne q) ≡ true
      from_flag waiting e = e
      from_flag left_out e = refl
      from_flag (put before) e = refl

      then_to-before :
          past direction (node c) (node t) ≡ false
          → then_to n c s ≡ walk_loop node direction f t n (advance node direction f t ne c s)
      unfolding then_to
      then_to-before e = simp (e, r.flag, placed, r.open_end)

      then_to-behind :
          past direction (node c) (node t) ≡ true → then_to n c s ≡ put_to node direction f t c s
      unfolding then_to
      then_to-behind e = simp (e, r.flag, placed, r.open_end)

      -- The walk ends with a place for the destination.
      PlacedTo : Cursor → List ℕ → Type 0
      PlacedTo s' front' =
          Result node direction f t ne
            (fin node direction f t ne (record s' { to_inserted = true }))
            (map node front' ++ map node (c ∷ cs))

      same_to : PlacedTo s front
      unfolding PlacedTo
      same_to =
          done_lem node direction f t ne (record s { to_inserted = true }) front (c ∷ cs)
            (record {
              prev = r.at.prev;
              path = r.at.path;
              ahead = r.at.ahead;
              distinct = r.at.distinct;
            })
            (r.flag ∙ placed) refl

      other_to : PlacedTo (link_in t s) (front ++ t ∷ [])
      unfolding PlacedTo link_in
      other_to =
          let d =
            subst Distinct (sym (append_assoc front (t ∷ []) (c ∷ cs)))
              (Distinct-insert front t (c ∷ cs) r.t_front r.t_rest r.at.distinct) in
          let h = link_in-At s front (c ∷ cs) t r.at r.t_front r.t_rest d in
          done_lem node direction f t ne (record (link_in t s) { to_inserted = true })
            (front ++ t ∷ []) (c ∷ cs)
            (record { prev = h.prev; path = h.path; ahead = h.ahead; distinct = h.distinct })
            (r.flag ∙ placed) refl

      put_to-Ends : Ends (put_to node direction f t c s) (record {
        front =
            if same_stop (node c) (node t) then map node front else map node front ++ node t ∷ [];
        from = from_of node direction f t ne p;
        to_inserted = true;
        rest = node c ∷ map node cs;
      })
      unfolding put_to PlacedTo
      put_to-Ends = elim (Bool-cases (same_stop (node c) (node t))) [
        | inl same ↦ rw same same_to
        | inr other ↦ rw other (
            subst
              (λ l.
                Result node direction f t ne
                  (fin node direction f t ne (record (link_in t s) { to_inserted = true }))
                  (l ++ map node (c ∷ cs)))
              (map-append node front (t ∷ [])) other_to)
      ]

      -- Behind the first test, where the start has its place.
      pub then_to-Ends :
          Ends
            (then_to n c s)
            (then_to_walk (map node front) (from_of node direction f t ne p) (node c) (map node cs))
      unfolding then_to_walk
      then_to-Ends = elim (Bool-cases (past direction (node c) (node t))) [
        | inr before ↦ rw (then_to-before before, before, from_flag p placed) (go_on s front p r)
        | inl behind ↦ rw (then_to-behind behind, behind, from_flag p placed) put_to-Ends
      ]
