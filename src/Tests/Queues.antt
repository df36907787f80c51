-- ===== src/Tests/Queues.antt =====
-- Calls and cars of assignment2/controller.c.
use mathlib.Core.List.{Sublistᴰ}
use cab403work.Base.{◌≡◌, refl, inl, [], List, ◌∷◌}
use cab403work.Base.Text.{codes}
use cab403work.Libc.{atoi, streq}
use cab403work.Controller.State.{up, floor_number}
use cab403work.Controller.Queue.{insert_same_direction}
use cab403work.Controller.Queue.Plan.{insert_call, run_passes, run_holds, run_before, behind_run}
use cab403work.Controller.Queue.Insertion.{
  insert_same_direction-insert_call, insert_same_direction-serves,
}
use cab403work.Controller.Queue.Insertion.Cut.{insert_same_direction-cut}
use cab403work.Controller.Dispatch.{select_best_car}
use cab403work.Controller.Dispatch.Selection.{Selects, select_best_car-Selects}
use cab403work.Controller.Dispatch.{free}
use cab403work.Controller.Dispatch.Order.{
  Event, run, arrives, goes_on, arrivals, InOrder, run-InOrder,
}
use cab403work.Controller.Connections.{update_car}
use cab403work.Controller.Connections.Updates.{Updated, update_car-Updated}
use cab403work.Tests.Given.{stop_up, alpha, two_to_seven, one_car}

insert_same_direction-insert_call_example :
    insert_same_direction up (stop_up (codes "2")) (stop_up (codes "7")) (stop_up (codes "8") ∷ [])
    ≡ insert_call up (stop_up (codes "2")) (stop_up (codes "7")) (stop_up (codes "8") ∷ [])
unfolding floor_number atoi run_passes
insert_same_direction-insert_call_example =
    insert_same_direction-insert_call up (stop_up (codes "2")) (stop_up (codes "7"))
      (stop_up (codes "8") ∷ []) refl (inl refl)

insert_same_direction-serves_example :
    let queue =
      insert_same_direction up
        (stop_up (codes "2"))
        (stop_up (codes "7"))
        (stop_up (codes "8") ∷ []) in
    Sublistᴰ (stop_up (codes "8") ∷ []) queue
    × Sublistᴰ (stop_up (codes "2") ∷ stop_up (codes "7") ∷ []) queue
unfolding floor_number atoi run_passes
insert_same_direction-serves_example =
    insert_same_direction-serves up (stop_up (codes "2")) (stop_up (codes "7"))
      (stop_up (codes "8") ∷ []) refl refl (inl refl)

insert_same_direction-cut_example :
    insert_same_direction up (stop_up (codes "2")) (stop_up (codes "7")) (stop_up (codes "4") ∷ [])
    ≡ stop_up (codes "2") ∷ stop_up (codes "7") ∷ []
unfolding floor_number atoi run_passes run_holds run_before behind_run streq
insert_same_direction-cut_example =
    insert_same_direction-cut up (stop_up (codes "2")) (stop_up (codes "7"))
      (stop_up (codes "4") ∷ []) refl refl

select_best_car-Selects_example :
    Selects two_to_seven (alpha ∷ []) (select_best_car two_to_seven (alpha ∷ []))
select_best_car-Selects_example = select_best_car-Selects two_to_seven (alpha ∷ [])

-- A call comes while the car of the first one is being chosen, and is taken up behind its answer.
abbrev one_in_between : List Event
one_in_between =
    goes_on ∷ arrives (record two_to_seven { fd = 11 }) ∷ goes_on ∷ goes_on ∷ goes_on ∷ goes_on ∷ []

run-InOrder_example :
    InOrder one_car
      (arrivals one_in_between)
      (run one_in_between (record { turn = free; controller = one_car }))
run-InOrder_example = run-InOrder one_in_between one_car

update_car-Updated_example :
    Updated
      (codes "Opening", codes "4", codes "4")
      alpha
      (update_car (codes "Opening", codes "4", codes "4") alpha)
update_car-Updated_example = update_car-Updated (codes "Opening", codes "4", codes "4") alpha
