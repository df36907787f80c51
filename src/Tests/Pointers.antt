-- ===== src/Tests/Pointers.antt =====
-- The linked list of assignment2/controller.c at given nodes.
use cab403work.Base.{ℕ, refl, [], ◌∷◌, none, some, ◌==◌, if◌then◌else◌, arith}
use cab403work.Base.Text.{codes}
use cab403work.Controller.State.{FloorNode, up}
use cab403work.Controller.Queue.{new_queue, car_direction}
use cab403work.Controller.Queue.Pointers.{insert_nodes}
use cab403work.Controller.Queue.Pointers.Insertion.{Holds, insert_nodes-new_queue}
use cab403work.Tests.Given.{stop_up, alpha, two_to_seven}

-- The queue of the car at address 1, the nodes of the call at 2 and 3.
abbrev nodes : ℕ → FloorNode
nodes a =
    if a == 1
    then stop_up (codes "4")
    else if a == 2
    then stop_up (codes "2")
    else stop_up (codes "7")

insert_nodes-new_queue_example :
    Holds nodes
      (insert_nodes nodes (car_direction alpha up) 2 3 up 2 (some 1) (λ a. none))
      (new_queue alpha two_to_seven up)
insert_nodes-new_queue_example =
    insert_nodes-new_queue alpha two_to_seven up nodes 2 3 (some 1) (λ a. none) (1 ∷ []) 2
      (omega arith) ((omega arith), tt) ((omega arith), tt) refl refl refl (refl, refl)
      (omega arith)
