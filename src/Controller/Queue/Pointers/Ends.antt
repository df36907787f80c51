-- ===== src/Controller/Queue/Pointers/Ends.antt =====
-- The end of assignment2/controller.c, `insert_floors_into_queue`, on the pointers and on the lists.
use mathlib.Core.List.{map-append}
use cab403work.Base.{
  ℕ, ◌<◌, ◌≡◌, ◌≢◌, refl, sym, ap, ◌∙◌, List, [], ◌∷◌, ◌++◌, map, append_assoc, none, some, subst,
  Bool, true, false, length,
}
use cab403work.Links.{
  behind_prev, head_or, attach, Distinct-front, link, Seg, Apart, Distinct, Seg-link, Seg-append,
  last_of-append, Apart-split, Apart-append, Distinct-split,
}
use cab403work.Controller.State.{Direction, FloorNode}
use cab403work.Controller.Queue.{From, pending, duplicate, linked, walk, finish, finished}
use cab403work.Controller.Queue.Pointers.{Cursor, walk_loop, append_from, append_to}
use cab403work.Controller.Queue.Pointers.Walk.{At, attach_ahead, cut_lem}

-- What has become of the node of the start, by addresses.
pub data Placed : Type 0 where
  waiting left_out : Placed
  put : List ℕ → Placed

abbrev pub placed_flag : Placed → Bool
placed_flag waiting = false
placed_flag left_out = true
placed_flag (put before) = true

module _ (node : ℕ → FloorNode) (direction : Direction) (f t : ℕ) (ne : f ≢ t) where
  abbrev pub from_of : Placed → From
  from_of waiting = pending
  from_of left_out = duplicate
  from_of (put before) = linked (map node before)

  abbrev pub Fact : Placed → List ℕ → List ℕ → Type 0
  Fact waiting front rest = Apart f front × Apart f rest
  Fact left_out front rest = Apart f front × Apart f rest
  Fact (put before) front rest = (mid : List ℕ) × (front ≡ before ++ f ∷ mid)

  abbrev pub fin : Cursor → Cursor
  fin s = append_to node direction f t (append_from node direction f t s)

  -- The nodes from the head on are those that the lists give.
  abbrev pub Result : Cursor → List FloorNode → Type 0
  Result s nodes = (ys : List ℕ) × Seg s.next s.head ys none × (map node ys ≡ nodes)

  module _ (s : Cursor) (front rest : List ℕ) (h : At s front rest) where
    pub done_lem :
        s.from_inserted ≡ true
        → s.to_inserted ≡ true
        → Result (fin s) (map node front ++ map node rest)
    unfolding append_from append_to
    done_lem i j =
        rw (i, j)
          (
            front ++ rest,
            Seg-append s.next s.head front s.curr rest none h.path h.ahead,
            map-append node front rest,
          )

    pub finish_lem :
        (p : Placed)
        → Fact p front rest
        → Apart t front
        → Apart t rest
        → s.from_inserted ≡ placed_flag p
        → s.to_inserted ≡ false
        → Result
            (fin s)
            (finish direction (node f) (node t) (from_of p) false (map node front) (map node rest))
    unfolding append_from append_to
    finish_lem waiting (f_front, f_rest) t_front t_rest i j =
        let d = Distinct-front front rest h.distinct in
        rw (i, j)
          (
            front ++ f ∷ t ∷ rest,
            cut_lem (behind_prev s.prev f s.next) (head_or s.prev f s.head) s.curr (s.next f) front
                [] rest f t ne f_front f_rest t_front t_rest
                (attach s.next s.head s.prev front s.curr f h.prev d f_front h.path)
                (attach_ahead s.next s.prev s.curr front rest f h.prev h.distinct h.ahead),
            map-append node front (f ∷ t ∷ rest),
          )
    finish_lem left_out (f_front, f_rest) t_front t_rest i j =
        let next' = link s.next f (some t) in
        rw (i, j)
          (
            front ++ rest,
            Seg-append (link next' t s.curr) s.head front s.curr rest none
                (Seg-link next' t s.curr s.head front s.curr t_front
                  (Seg-link s.next f (some t) s.head front s.curr f_front h.path))
                (Seg-link next' t s.curr s.curr rest none t_rest
                  (Seg-link s.next f (some t) s.curr rest none f_rest h.ahead)),
            map-append node front rest,
          )
    finish_lem (put before) (mid, e) t_front t_rest i j =
        let all : Distinct (before ++ f ∷ (mid ++ rest)) =
          subst Distinct (ap (λ l. l ++ rest) e ∙ append_assoc before (f ∷ mid) rest) h.distinct in
        let (f_before, f_behind, _) = Distinct-split before f (mid ++ rest) all in
        let (t_before, _) = Apart-split t before (f ∷ mid) (subst (Apart t) e t_front) in
        rw (i, j)
          (
            before ++ f ∷ t ∷ rest,
            cut_lem s.next s.head s.curr s.curr before mid rest f t ne f_before
                (Apart-split f mid rest f_behind).1 t_before t_rest
                (subst (λ l. Seg s.next s.head l s.curr) e h.path) h.ahead,
            map-append node before (f ∷ t ∷ rest),
          )

  -- The loop goes on behind `c`.
  abbrev pub advance : ℕ → Cursor → Cursor
  advance c s = record s { prev = some c; curr = s.next c }

  advance-At :
      (s : Cursor) (front : List ℕ) (c : ℕ) (cs : List ℕ)
      → At s front (c ∷ cs)
      → At (advance c s) (front ++ c ∷ []) cs
  advance-At s front c cs h = record {
    prev = sym (last_of-append none front c);
    path = Seg-append s.next s.head front s.curr (c ∷ []) (s.next c) h.path (h.ahead.0, refl);
    ahead = h.ahead.1;
    distinct = subst Distinct (sym (append_assoc front (c ∷ []) cs)) h.distinct;
  }

  advance-Fact :
      (p : Placed) (front : List ℕ) (c : ℕ) (cs : List ℕ)
      → Fact p front (c ∷ cs)
      → Fact p (front ++ c ∷ []) cs
  advance-Fact waiting front c cs (m, (e, n)) = (Apart-append f front (c ∷ []) m (e, tt), n)
  advance-Fact left_out front c cs (m, (e, n)) = (Apart-append f front (c ∷ []) m (e, tt), n)
  advance-Fact (put before) front c cs (mid, e) =
      (mid ++ c ∷ [], ap (λ l. l ++ c ∷ []) e ∙ append_assoc before (f ∷ mid) (c ∷ []))

  -- What is known of the loop's state, and what it leads to.
  pub record Ready (s : Cursor) (front rest : List ℕ) (p : Placed) : Type 0 where
    pub at : At s front rest
    pub fact : Fact p front rest
    pub t_front : Apart t front
    pub t_rest : Apart t rest
    pub flag : s.from_inserted ≡ placed_flag p
    pub open_end : s.to_inserted ≡ false

  abbrev pub Leads : ℕ → Type 0
  Leads n =
      (s : Cursor) (front rest : List ℕ) (p : Placed)
      → Ready s front rest p
      → length rest < n
      → Result (fin (walk_loop node direction f t n s)) (
          finished direction (node f) (node t)
            (walk direction (node f) (node t) (map node front) (from_of p) (map node rest)))

  pub advance-Ready :
      (s : Cursor) (front : List ℕ) (c : ℕ) (cs : List ℕ) (p : Placed)
      → Ready s front (c ∷ cs) p
      → Ready (advance c s) (front ++ c ∷ []) cs p
  advance-Ready s front c cs p r = record {
    at = advance-At s front c cs r.at;
    fact = advance-Fact p front c cs r.fact;
    t_front = Apart-append t front (c ∷ []) r.t_front (r.t_rest.0, tt);
    t_rest = r.t_rest.1;
    flag = r.flag;
    open_end = r.open_end;
  }
