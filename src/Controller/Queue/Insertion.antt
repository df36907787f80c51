-- ===== src/Controller/Queue/Insertion.antt =====
-- When assignment2/controller.c, `insert_floors_into_queue`, keeps to the plan.
pub mod Cut
use mathlib.Core.List.{Sublistᴰ}
use cab403work.Base.{
  ℕ, zero, suc, ◌+◌, ◌≤◌, ◌<◌, ◌≡◌, refl, sym, ap, ◌∙◌, ◌⊎◌, Bool, Bool-cases, inl, inr, true,
  false, not, ◌&&◌, ◌||◌, List, [], ◌∷◌, ◌++◌, append_assoc, append-nil, if◌then◌else◌, arith,
}
use cab403work.Base.Int.{ℤ, pos, negsuc, leb_ℤ}
use cab403work.Controller.State.{Direction, up, down, same_direction, FloorNode, floor_number}
use cab403work.Controller.Queue.{
  past, same_stop, From, pending, duplicate, linked, from_inserted, Walk, place_from,
  front_with_from, walk, finish, finished, insert_same_direction,
}
use cab403work.Controller.Queue.Plan.{insert_stop, insert_call, run_passes, behind_run}
use cab403work.Controller.Queue.Plan.Stops.{insert_call-sublist, insert_call-serves}

module _ (direction : Direction) (from_node to_node : FloorNode) where
  -- Once `from_node` has its place, `to_node` gets its own if the run passes it.
  walk-to :
      (front : List FloorNode) (f : From) (queue : List FloorNode)
      → from_inserted f ≡ true
      → run_passes direction to_node queue ≡ true
      → finished direction from_node to_node (walk direction from_node to_node front f queue)
        ≡ front ++ insert_stop direction to_node queue
  unfolding walk insert_stop run_passes
  walk-to front f [] i r = cc
  walk-to front pending (curr ∷ rest) i r = cc
  walk-to front duplicate (curr ∷ rest) i r = ground (
    arith,
    walk-to (front ++ curr ∷ []) duplicate rest,
    append_assoc front (curr ∷ []) (insert_stop direction to_node rest),
    append_assoc front (to_node ∷ []) (curr ∷ rest),
  )
  walk-to front (linked before) (curr ∷ rest) i r = ground (
    arith,
    walk-to (front ++ curr ∷ []) (linked before) rest,
    append_assoc front (curr ∷ []) (insert_stop direction to_node rest),
    append_assoc front (to_node ∷ []) (curr ∷ rest),
  )

  -- Where the run does not pass `to_node`, the walk goes to the end of the run.
  pub walk-end :
      (front : List FloorNode) (f : From) (queue : List FloorNode)
      → from_inserted f ≡ true
      → run_passes direction to_node queue ≡ false
      → let w = walk direction from_node to_node front f queue in
        (w.from ≡ f)
        × (w.to_inserted ≡ false)
        × (w.rest ≡ behind_run direction queue)
        × (w.front ++ w.rest ≡ front ++ queue)
  unfolding walk run_passes behind_run
  walk-end front f [] i r = (refl, refl, refl, refl)
  walk-end front pending (curr ∷ rest) i r = cc
  walk-end front duplicate (curr ∷ rest) i r =
      ground
        (arith, walk-end (front ++ curr ∷ []) duplicate rest, append_assoc front (curr ∷ []) rest)
  walk-end front (linked before) (curr ∷ rest) i r = ground (
    arith,
    walk-end (front ++ curr ∷ []) (linked before) rest,
    append_assoc front (curr ∷ []) rest,
  )

  -- The walk from its start, in the same two cases and in the third.
  walk-pending_to :
      (front : List FloorNode) (queue : List FloorNode)
      → ((curr : FloorNode)
          → past direction curr to_node ≡ true
          → past direction curr from_node ≡ true)
      → run_passes direction to_node queue ≡ true
      → finished direction from_node to_node (walk direction from_node to_node front pending queue)
        ≡ front ++ insert_call direction from_node to_node queue
  unfolding walk insert_call insert_stop run_passes
  walk-pending_to front [] ordered r = cc
  walk-pending_to front (curr ∷ rest) ordered r =
      elim (Bool-cases (past direction curr from_node)) [
        | inr before ↦ ground (
          arith,
          before,
          ordered curr,
          walk-pending_to (front ++ curr ∷ []) rest ordered,
          append_assoc front (curr ∷ []) (insert_call direction from_node to_node rest),
        )
        | inl behind ↦ elim (Bool-cases (same_stop curr from_node)) [
          | inl same ↦
              rw (behind, same)
                (ground (
                  arith,
                  walk-to (front ++ curr ∷ []) duplicate rest,
                  append_assoc front (curr ∷ []) (insert_stop direction to_node rest),
                  append_assoc front (to_node ∷ []) (curr ∷ rest),
                ))
          | inr other ↦
              rw (behind, other)
                (ground (
                  arith,
                  walk-to ((front ++ from_node ∷ []) ++ curr ∷ []) (linked front) rest,
                  append_assoc (front ++ from_node ∷ []) (curr ∷ [])
                      (insert_stop direction to_node rest),
                  append_assoc (front ++ from_node ∷ []) (to_node ∷ []) (curr ∷ rest),
                  append_assoc front (from_node ∷ []) (curr ∷ insert_stop direction to_node rest),
                  append_assoc front (from_node ∷ []) (to_node ∷ curr ∷ rest),
                  append_assoc front (from_node ∷ []) (curr ∷ rest),
                ))
        ]
      ]

  walk-pending_end :
      (front : List FloorNode) (queue : List FloorNode)
      → run_passes direction from_node queue ≡ false
      → finished direction from_node to_node (walk direction from_node to_node front pending queue)
        ≡ front ++ insert_call direction from_node to_node queue
  unfolding walk insert_call run_passes
  walk-pending_end front [] r = refl
  walk-pending_end front (curr ∷ rest) r = ground (
    arith,
    walk-pending_end (front ++ curr ∷ []) rest,
    append_assoc front (curr ∷ []) (insert_call direction from_node to_node rest),
  )

leb_ℤ-trans : (a b c : ℤ) → leb_ℤ a b ≡ true → leb_ℤ b c ≡ true → leb_ℤ a c ≡ true
leb_ℤ-trans (pos a) (pos b) (pos c) h k = ground arith
leb_ℤ-trans (pos a) (pos b) (negsuc c) h k = ground arith
leb_ℤ-trans (pos a) (negsuc b) c h k = cc
leb_ℤ-trans (negsuc a) b (pos c) h k = refl
leb_ℤ-trans (negsuc a) (pos b) (negsuc c) h k = cc
leb_ℤ-trans (negsuc a) (negsuc b) (negsuc c) h k = ground arith

past_trans :
    (direction : Direction) (a b c : FloorNode)
    → past direction a b ≡ true
    → past direction b c ≡ true
    → past direction a c ≡ true
past_trans up a b c h k =
    leb_ℤ-trans (floor_number c.floor) (floor_number b.floor) (floor_number a.floor) k h
past_trans down a b c h k =
    leb_ℤ-trans (floor_number a.floor) (floor_number b.floor) (floor_number c.floor) h k

-- For a call in the car's direction whose destination is not before its start: if the first run of
-- the queue has a stop at or behind the destination, or none at or behind the start, the pointer
-- walk leaves the queue that the plan gives, each stop put in front of the first stop of the run
-- at or behind it unless it is there already.
pub insert_same_direction-insert_call :
    (direction : Direction) (from_node to_node : FloorNode) (queue : List FloorNode)
    → past direction to_node from_node ≡ true
    → (run_passes direction to_node queue ≡ true) ⊎ (run_passes direction from_node queue ≡ false)
    → insert_same_direction direction from_node to_node queue
      ≡ insert_call direction from_node to_node queue
unfolding insert_same_direction
insert_same_direction-insert_call direction from_node to_node queue way (inl passed) =
    walk-pending_to direction from_node to_node [] queue
      (λ curr h. past_trans direction curr to_node from_node h way) passed
insert_same_direction-insert_call direction from_node to_node queue way (inr free) =
    walk-pending_end direction from_node to_node [] queue free

-- For a call in the car's direction whose destination is strictly behind its start: if the first
-- run of the queue has a stop at or behind the destination, or none at or behind the start, the
-- new queue has every stop of the old one in its order, and the call's start with its destination
-- behind it.
pub insert_same_direction-serves :
    (direction : Direction) (from_node to_node : FloorNode) (queue : List FloorNode)
    → past direction to_node from_node ≡ true
    → past direction from_node to_node ≡ false
    → (run_passes direction to_node queue ≡ true) ⊎ (run_passes direction from_node queue ≡ false)
    → Sublistᴰ queue (insert_same_direction direction from_node to_node queue)
      × Sublistᴰ
          (from_node ∷ to_node ∷ [])
          (insert_same_direction direction from_node to_node queue)
insert_same_direction-serves direction from_node to_node queue way strict free =
    rw (insert_same_direction-insert_call direction from_node to_node queue way free) (
      insert_call-sublist direction from_node to_node queue,
      insert_call-serves direction from_node to_node queue strict,
    )
