-- ===== src/Controller/Queue/Pointers/Insertion.antt =====
-- assignment2/controller.c, `insert_floors_into_queue`: the linked list behind the call, and the
-- queue as a list.
use mathlib.Core.List.{map-append}
use mathlib.Core.Option.{some-injective}
use cab403work.Base.{
  ℕ, zero, suc, ◌<◌, ◌≤◌, ◌≡◌, ◌≢◌, refl, sym, ap, ◌∙◌, inl, inr, List, [], ◌∷◌, ◌++◌, map, Option,
  none, some, subst, arith, false, if◌then◌else◌, length,
}
use cab403work.Links.{
  Links, link, Seg, Apart, last_of, Seg-link, Seg-append, last_of-append, Apart-split, Seg-Distinct,
  Distinct-split, link_same, link_other, Seg-link_last, last_cases,
}
use cab403work.Controller.State.{Direction, up, down, same_direction, FloorNode, Car, Call}
use cab403work.Controller.Queue.{
  stop, insert_same_direction, insert_other_direction, new_queue, car_direction,
}
use cab403work.Controller.Queue.Pointers.{
  insert_in_direction, insert_at_end, insert_nodes, last_node,
}
use cab403work.Controller.Queue.Pointers.Ends.{waiting}
use cab403work.Controller.Queue.Pointers.Loop.{walk_loop-Ends}

-- The list from the head on holds these nodes.
abbrev pub Holds : (ℕ → FloorNode) → Option ℕ × Links → List FloorNode → Type 0
Holds node (head, next) nodes = (ys : List ℕ) × Seg next head ys none × (map node ys ≡ nodes)

module _ (node : ℕ → FloorNode) (direction : Direction) (f t : ℕ) (ne : f ≢ t) (head : Option ℕ)
    (next : Links) (xs : List ℕ) (apart_f : Apart f xs) (apart_t : Apart t xs)
    (path : Seg next head xs none) (fuel : ℕ) (enough : length xs < fuel) where
  insert_in_direction-Holds :
      Holds node
        (insert_in_direction node direction f t fuel head next)
        (insert_same_direction direction (node f) (node t) (map node xs))
  unfolding insert_in_direction insert_same_direction
  insert_in_direction-Holds =
      walk_loop-Ends node direction f t ne fuel
        (record {
          head = head;
          next = next;
          prev = none;
          curr = head;
          from_inserted = false;
          to_inserted = false;
        })
        [] xs waiting
        (record {
          at = record {
            prev = refl;
            path = refl;
            ahead = path;
            distinct = Seg-Distinct next head xs path;
          };
          fact = (tt, apart_f);
          t_front = tt;
          t_rest = apart_t;
          flag = refl;
          open_end = refl;
        })
        enough

last_node-last_of :
    (n : ℕ) (next : Links) (a : ℕ) (xs : List ℕ)
    → Seg next (next a) xs none
    → length xs ≤ n
    → some (last_node n next a) ≡ last_of (some a) xs
unfolding last_node
last_node-last_of zero next a [] s le = refl
last_node-last_of zero next a (b ∷ xs) s le = absurd (omega arith)
last_node-last_of (suc n) next a [] s le = simp (s, last_node)
last_node-last_of (suc n) next a (b ∷ xs) (e, s) le =
    rw (last_node, e) (last_node-last_of n next b xs s (omega arith))

module _ (node : ℕ → FloorNode) (direction : Direction) (f t : ℕ) (ne : f ≢ t) (next : Links)
    (fresh : next t ≡ none) where
  -- The two new nodes, where some node's pointer leads to the first.
  tail_lem :
      (next' : Links) → next' t ≡ none → Seg (link next' f (some t)) (some f) (f ∷ t ∷ []) none
  tail_lem next' e =
      (refl, (link_same next' f (some t), link_other next' f t (some t) (λ q. ne (sym q)) ∙ e))

  is_last :
      (fuel first x : ℕ) (xs fr : List ℕ) (l : ℕ)
      → first ≡ x
      → x ∷ xs ≡ fr ++ l ∷ []
      → Seg next (next x) xs none
      → length xs < fuel
      → last_node fuel next first ≡ l
  is_last fuel first x xs fr l same snoc s enough =
      let found : some (last_node fuel next x) ≡ last_of none (x ∷ xs) =
        last_node-last_of fuel next x xs s (omega arith) in
      let end : last_of none (x ∷ xs) ≡ some l =
        ap (last_of none) snoc ∙ last_of-append none fr l in
      rw same (some-injective _ _ (found ∙ end))

  behind_last :
      (fr : List ℕ) (l : ℕ) (head : Option ℕ)
      → Seg next head (fr ++ l ∷ []) none
      → Apart f (fr ++ l ∷ [])
      → Apart t (fr ++ l ∷ [])
      → Seg (link (link next l (some f)) f (some t)) head ((fr ++ l ∷ []) ++ f ∷ t ∷ []) none
  behind_last fr l head s m n =
      let (l_fr, _, _) = Distinct-split fr l [] (Seg-Distinct next head (fr ++ l ∷ []) s) in
      let (_, (l_t, _)) = Apart-split t fr (l ∷ []) n in
      Seg-append (link (link next l (some f)) f (some t)) head (fr ++ l ∷ []) (some f) (f ∷ t ∷ [])
        none
        (Seg-link (link next l (some f)) f (some t) head (fr ++ l ∷ []) (some f) m
          (Seg-link_last next head fr l none (some f) l_fr s))
        (tail_lem (link next l (some f)) (link_other next l t (some f) (λ q. l_t (sym q)) ∙ fresh))

  insert_at_end-Holds :
      (fuel : ℕ) (head : Option ℕ) (xs : List ℕ)
      → Apart f xs
      → Apart t xs
      → Seg next head xs none
      → length xs < fuel
      → Holds node
          (insert_at_end node direction f t fuel head next)
          (insert_other_direction (node f) (node t) (map node xs))
  unfolding insert_at_end
  insert_at_end-Holds fuel none [] m n s enough = (f ∷ t ∷ [], tail_lem next fresh, refl)
  insert_at_end-Holds fuel none (x ∷ xs) m n (e, s) enough = absurd cc
  insert_at_end-Holds fuel (some first) [] m n s enough = absurd cc
  insert_at_end-Holds fuel (some first) (x ∷ xs) m n (e, s) enough = elim (last_cases (x ∷ xs)) [
    | inl none_there ↦ absurd cc
    | inr (fr, l, snoc) ↦
        let same : first ≡ x = cc in
        let path : Seg next (some first) (fr ++ l ∷ []) none =
          subst (λ ys. Seg next (some first) ys none) snoc (e, s) in
        let last : last_node fuel next first ≡ l =
          is_last fuel first x xs fr l same snoc s (omega arith) in
        (
          (x ∷ xs) ++ f ∷ t ∷ [],
          subst
              (λ a.
                Seg (link (link next a (some f)) f (some t)) (some first) ((x ∷ xs) ++ f ∷ t ∷ [])
                  none)
              (sym last)
              (subst
                (λ ys.
                  Seg (link (link next l (some f)) f (some t)) (some first) (ys ++ f ∷ t ∷ []) none)
                (sym snoc)
                (behind_last fr l (some first) path (subst (Apart f) snoc m)
                  (subst (Apart t) snoc n))),
          map-append node (x ∷ xs) (f ∷ t ∷ []),
        )
  ]

module _ (node : ℕ → FloorNode) (f t : ℕ) (ne : f ≢ t) (head : Option ℕ) (next : Links)
    (xs : List ℕ) (apart_f : Apart f xs) (apart_t : Apart t xs) (path : Seg next head xs none)
    (fuel : ℕ) (enough : length xs < fuel) where
  fresh_next : Links
  fresh_next = link (link next f none) t none

  fresh_path : Seg fresh_next head xs none
  unfolding fresh_next
  fresh_path =
      Seg-link (link next f none) t none head xs none apart_t
        (Seg-link next f none head xs none apart_f path)

  along :
      (d : Direction)
      → Holds node
          (insert_in_direction node d f t fuel head fresh_next)
          (insert_same_direction d (node f) (node t) (map node xs))
  along d =
      insert_in_direction-Holds node d f t ne head fresh_next xs apart_f apart_t fresh_path fuel
        enough

  against :
      (d : Direction)
      → Holds node
          (insert_at_end node d f t fuel head fresh_next)
          (insert_other_direction (node f) (node t) (map node xs))
  unfolding fresh_next
  against d =
      insert_at_end-Holds node d f t ne fresh_next (link_same (link next f none) t none) fuel head
        xs apart_f apart_t fresh_path enough

  insert_nodes-Holds :
      (car_dir direction : Direction)
      → Holds node (insert_nodes node car_dir f t direction fuel head next) (
          if same_direction car_dir direction
          then insert_same_direction direction (node f) (node t) (map node xs)
          else insert_other_direction (node f) (node t) (map node xs))
  unfolding insert_nodes fresh_next
  insert_nodes-Holds up up = along up
  insert_nodes-Holds up down = against up
  insert_nodes-Holds down up = against down
  insert_nodes-Holds down down = along down

  given_nodes :
      (car_dir direction : Direction) (a b : FloorNode) (queue : List FloorNode)
      → node f ≡ a
      → node t ≡ b
      → map node xs ≡ queue
      → Holds node (insert_nodes node car_dir f t direction fuel head next) (
          if same_direction car_dir direction
          then insert_same_direction direction a b queue
          else insert_other_direction a b queue)
  given_nodes car_dir direction a b queue start end holds =
      rw⁻¹ (start, end, holds) (insert_nodes-Holds car_dir direction)

-- Behind `insert_floors_into_queue` the linked list from the head on is the queue that `new_queue`
-- gives, for every list without a cycle that holds the queue of the car and neither of the two new
-- nodes, with more fuel than the list has nodes.
pub insert_nodes-new_queue :
    (car : Car) (call : Call) (direction : Direction) (node : ℕ → FloorNode) (f t : ℕ)
    (head : Option ℕ) (next : Links) (xs : List ℕ) (fuel : ℕ)
    → f ≢ t
    → Apart f xs
    → Apart t xs
    → node f ≡ stop direction call.current_floor
    → node t ≡ stop direction call.destination_floor
    → map node xs ≡ car.floor_queue
    → Seg next head xs none
    → length xs < fuel
    → Holds node
        (insert_nodes node (car_direction car direction) f t direction fuel head next)
        (new_queue car call direction)
unfolding new_queue
insert_nodes-new_queue car call direction node f t head next xs fuel ne m n start end queue path
      enough =
    given_nodes node f t ne head next xs m n path fuel enough (car_direction car direction)
      direction (stop direction call.current_floor) (stop direction call.destination_floor)
      car.floor_queue start end queue
