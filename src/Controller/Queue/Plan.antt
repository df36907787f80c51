-- ===== src/Controller/Queue/Plan.antt =====
-- What `insert_floors_into_queue` of assignment2/controller.c is there to do for a call in the
-- direction of the car: each of the two stops takes its place in the first run of stops, those of
-- one direction.
pub mod Stops
use cab403work.Base.{
  ℕ, zero, suc, ◌+◌, ◌≤◌, ◌<◌, ◌≡◌, refl, ap, ◌∙◌, Bool, true, false, not, ◌&&◌, ◌||◌, List, [],
  ◌∷◌, ◌++◌, if◌then◌else◌,
}
use cab403work.Controller.State.{Direction, same_direction, FloorNode}
use cab403work.Controller.Queue.{past, same_stop}

module _ (direction : Direction) where
  -- One stop, in front of the first stop of the run that is at its floor or behind it.
  unfoldable pub insert_stop : FloorNode → List FloorNode → List FloorNode
  insert_stop node [] = node ∷ []
  insert_stop node (curr ∷ rest) =
      let on = curr ∷ insert_stop node rest in
      if not (same_direction curr.direction direction)
      then node ∷ curr ∷ rest
      else if past direction curr node
      then (if same_stop curr node then curr ∷ rest else node ∷ curr ∷ rest)
      else on

  -- The stop of the caller, and behind it the stop that the caller goes to.
  unfoldable pub insert_call : FloorNode → FloorNode → List FloorNode → List FloorNode
  insert_call from_node to_node [] = from_node ∷ to_node ∷ []
  insert_call from_node to_node (curr ∷ rest) =
      let on = curr ∷ insert_call from_node to_node rest in
      if not (same_direction curr.direction direction)
      then from_node ∷ to_node ∷ curr ∷ rest
      else if past direction curr from_node
      then (if same_stop curr from_node
          then insert_stop to_node (curr ∷ rest)
          else from_node ∷ insert_stop to_node (curr ∷ rest))
      else on

  -- Some stop of the run is at the floor of `node` or behind it.
  unfoldable pub run_passes : FloorNode → List FloorNode → Bool
  run_passes node [] = false
  run_passes node (curr ∷ rest) =
      same_direction curr.direction direction && (past direction curr node || run_passes node rest)

  -- The run up to the floor of `node`, and the queue behind the run.
  unfoldable pub run_before : FloorNode → List FloorNode → List FloorNode
  run_before node [] = []
  run_before node (curr ∷ rest) =
      let on = curr ∷ run_before node rest in
      if same_direction curr.direction direction && not (past direction curr node) then on else []

  unfoldable pub behind_run : List FloorNode → List FloorNode
  behind_run [] = []
  behind_run (curr ∷ rest) =
      let on = behind_run rest in
      if same_direction curr.direction direction then on else curr ∷ rest

  -- The first stop of the run at the floor of `node` or behind it is the stop of `node`.
  unfoldable pub run_holds : FloorNode → List FloorNode → Bool
  run_holds node [] = false
  run_holds node (curr ∷ rest) =
      same_direction curr.direction direction
      && (if past direction curr node then same_stop curr node else run_holds node rest)
