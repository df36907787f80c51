-- ===== src/Controller/Queue/Pointers.antt =====
-- assignment2/controller.c, `insert_floors_into_queue`, on the nodes of the linked list: what the
-- code does to `floor_queue_head` and to the `next` fields. A node is its address; the direction
-- and the floor in it, which the code does not change once the node is made, are `node`.
pub mod Ends
pub mod Insertion
pub mod Loop
pub mod Refinement
pub mod Walk
use cab403work.Base.{ℕ, zero, suc, Bool, true, false, not, ◌&&◌, Option, none, some, if◌then◌else◌}
use cab403work.Links.{Links, link, behind_prev, head_or}
use cab403work.Controller.State.{Direction, same_direction, FloorNode}
use cab403work.Controller.Queue.{past, same_stop}

-- The variables of the walk, and the memory.
pub record Cursor : Type 0 where
  pub head : Option ℕ
  pub next : Links
  pub prev : Option ℕ
  pub curr : Option ℕ
  pub from_inserted : Bool
  pub to_inserted : Bool

-- `node->next = curr;`, that test, and `prev = node;`
unfoldable pub link_in : ℕ → Cursor → Cursor
link_in node s = record s {
  next = behind_prev s.prev node (link s.next node s.curr);
  head = head_or s.prev node s.head;
  prev = some node;
}

-- `last` from the head on, with that many nodes to go.
unfoldable pub last_node : ℕ → Links → ℕ → ℕ
last_node zero next last = last
last_node (suc n) next last = elim (next last) [ none ↦ last | some a ↦ last_node n next a ]

module _ (node : ℕ → FloorNode) (car_direction : Direction) (from_node to_node : ℕ) where
  -- The first test in the loop.
  unfoldable pub put_from : ℕ → Cursor → Cursor
  unfolding link_in
  put_from curr s =
      if not s.from_inserted && past car_direction (node curr) (node from_node)
      then record (if same_stop (node curr) (node from_node) then s else link_in from_node s) {
        from_inserted = true;
      }
      else s

  -- What the second test guards.
  unfoldable pub put_to : ℕ → Cursor → Cursor
  unfolding link_in
  put_to curr s = record (if same_stop (node curr) (node to_node) then s else link_in to_node s) {
    to_inserted = true;
  }

  -- The body of the loop at `curr`, and whether the loop goes on.
  unfoldable pub walk_round : ℕ → Cursor → Cursor × Bool
  unfolding put_from put_to
  walk_round curr s =
      let s' = put_from curr s in
      if s'.from_inserted && not s'.to_inserted && past car_direction (node curr) (node to_node)
      then (put_to curr s', false)
      else (record s' { prev = some curr; curr = s'.next curr }, true)

  -- The loop, with fuel.
  unfoldable pub walk_loop : ℕ → Cursor → Cursor
  unfolding walk_round
  walk_loop zero s = s
  walk_loop (suc n) s = elim s.curr [
    | none ↦ s
    | some curr ↦
        let (s', on) = walk_round curr s in
        let rest = walk_loop n s' in
        if same_direction (node curr).direction car_direction then (if on then rest else s') else s
  ]

  -- `if (!from_inserted)` behind the loop.
  unfoldable pub append_from : Cursor → Cursor
  append_from s =
      if not s.from_inserted
      then record s {
        next = behind_prev s.prev from_node s.next;
        head = head_or s.prev from_node s.head;
        prev = some from_node;
      }
      else s

  -- `if (!to_inserted)` behind it.
  unfoldable pub append_to : Cursor → Cursor
  append_to s =
      if not s.to_inserted
      then record s { next = link (link s.next from_node (some to_node)) to_node s.curr }
      else s

  -- The branch for a call in the direction of the car.
  unfoldable pub insert_in_direction : ℕ → Option ℕ → Links → Option ℕ × Links
  unfolding walk_loop append_from append_to
  insert_in_direction fuel head next =
      let start : Cursor = record {
        head = head;
        next = next;
        prev = none;
        curr = head;
        from_inserted = false;
        to_inserted = false;
      } in
      let s = append_to (append_from (walk_loop fuel start)) in (s.head, s.next)

  -- The other branch.
  unfoldable pub insert_at_end : ℕ → Option ℕ → Links → Option ℕ × Links
  unfolding last_node
  insert_at_end fuel none next = (some from_node, link next from_node (some to_node))
  insert_at_end fuel (some first) next =
      let last = last_node fuel next first in
      (some first, link (link next last (some from_node)) from_node (some to_node))

  -- Both branches, on nodes that come from malloc with NULL in their `next`.
  unfoldable pub insert_nodes : Direction → ℕ → Option ℕ → Links → Option ℕ × Links
  unfolding insert_in_direction insert_at_end
  insert_nodes call_direction fuel head next =
      let fresh = link (link next from_node none) to_node none in
      if same_direction car_direction call_direction
      then insert_in_direction fuel head fresh
      else insert_at_end fuel head fresh
