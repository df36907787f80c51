-- ===== src/Controller/Queue/Insertion/Cut.antt =====
-- What assignment2/controller.c, `insert_floors_into_queue`, does to the queue where it does not
-- keep to the plan.
use cab403work.Base.{
  ◌≡◌, refl, ap, ◌∙◌, Bool-cases, inl, inr, true, false, List, [], ◌∷◌, ◌++◌, append_assoc,
  if◌then◌else◌, arith,
}
use cab403work.Controller.State.{Direction, same_direction, FloorNode}
use cab403work.Controller.Queue.{
  past, same_stop, pending, duplicate, linked, Walk, walk, finished, insert_same_direction,
}
use cab403work.Controller.Queue.Insertion.{walk-end}
use cab403work.Controller.Queue.Plan.{run_passes, run_before, behind_run, run_holds}

module _ (direction : Direction) (from_node to_node : FloorNode) where
  finish_duplicate :
      (w : Walk)
      → w.from ≡ duplicate
      → w.to_inserted ≡ false
      → finished direction from_node to_node w ≡ w.front ++ w.rest
  finish_duplicate w p q = simp (p, q)

  finish_linked :
      (w : Walk) (before : List FloorNode)
      → w.from ≡ linked before
      → w.to_inserted ≡ false
      → finished direction from_node to_node w ≡ before ++ from_node ∷ to_node ∷ w.rest
  finish_linked w before p q = simp (p, q)

  run_head :
      (curr : FloorNode) (rest : List FloorNode)
      → run_passes direction from_node (curr ∷ rest) ≡ true
      → run_passes direction to_node (curr ∷ rest) ≡ false
      → (same_direction curr.direction direction ≡ true)
        × (past direction curr to_node ≡ false)
        × (run_passes direction to_node rest ≡ false)
  unfolding run_passes
  run_head curr rest r t = ground arith

  regroup :
      (front : List FloorNode) (curr : FloorNode) (rest : List FloorNode)
      → (front ++ curr ∷ [])
          ++ (if run_holds direction from_node rest
              then rest
              else run_before direction from_node rest
                ++ from_node ∷ to_node ∷ behind_run direction rest)
        ≡ front
          ++ (if run_holds direction from_node rest
              then curr ∷ rest
              else curr
                ∷ (run_before direction from_node rest
                    ++ from_node ∷ to_node ∷ behind_run direction rest))
  regroup front curr rest = elim (Bool-cases (run_holds direction from_node rest)) [
    | inl holds ↦ rw holds (append_assoc front (curr ∷ []) rest)
    | inr not_there ↦ rw not_there (append_assoc front (curr ∷ []) _)
  ]

  -- The run passes `from_node` and does not pass `to_node`.
  walk-pending_cut :
      (front : List FloorNode) (queue : List FloorNode)
      → run_passes direction from_node queue ≡ true
      → run_passes direction to_node queue ≡ false
      → finished direction from_node to_node (walk direction from_node to_node front pending queue)
        ≡ front
          ++ (if run_holds direction from_node queue
              then queue
              else run_before direction from_node queue
                ++ from_node ∷ to_node ∷ behind_run direction queue)
  unfolding walk run_passes run_holds run_before behind_run
  walk-pending_cut front [] r t = cc
  walk-pending_cut front (curr ∷ rest) r t =
      let (in_run, short, shorts) = run_head curr rest r t in
      elim (Bool-cases (past direction curr from_node)) [
        | inr before ↦
            let later : run_passes direction from_node rest ≡ true = ground (arith, before) in
            rw (in_run, before)
              (walk-pending_cut (front ++ curr ∷ []) rest later shorts ∙ regroup front curr rest)
        | inl behind ↦ elim (Bool-cases (same_stop curr from_node)) [
          | inl same ↦
              let (p, q, _, whole) =
                walk-end direction from_node to_node (front ++ curr ∷ []) duplicate rest refl
                  shorts in
              rw (in_run, behind, same, short)
                (finish_duplicate _ p q ∙ whole ∙ append_assoc front (curr ∷ []) rest)
          | inr other ↦
              let (p, q, end, _) =
                walk-end direction from_node to_node ((front ++ from_node ∷ []) ++ curr ∷ [])
                  (linked front) rest refl shorts in
              rw (in_run, behind, other, short)
                (finish_linked _ front p q ∙ ap (λ l. front ++ from_node ∷ to_node ∷ l) end)
        ]
      ]

-- If the first run of the queue has a stop at or behind the call's start and none at or behind its
-- destination: the queue stays as it was when the first of these stops is the start itself, and
-- otherwise the call's two stops take the place of all of these stops.
pub insert_same_direction-cut :
    (direction : Direction) (from_node to_node : FloorNode) (queue : List FloorNode)
    → run_passes direction from_node queue ≡ true
    → run_passes direction to_node queue ≡ false
    → insert_same_direction direction from_node to_node queue ≡ (
        if run_holds direction from_node queue
        then queue
        else run_before direction from_node queue
          ++ from_node ∷ to_node ∷ behind_run direction queue)
unfolding insert_same_direction
insert_same_direction-cut direction from_node to_node queue r t =
    walk-pending_cut direction from_node to_node [] queue r t
