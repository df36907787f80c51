-- ===== src/Controller/Dispatch/Rounds.antt =====
-- The rounds of assignment2/controller.c, `elevator_control_loop`, that no other thread comes into.
use cab403work.Base.{◌≡◌, refl, List, ◌∷◌, Option, none, some}
use cab403work.Controller.State.{Car, Call, Controller}
use cab403work.Controller.Dispatch.{
  select_best_car, find_car, respond, serve_call, free, taken, Loop, control_step,
}

-- One more critical section.
abbrev next : Loop → Loop
next l = control_step l.turn l.controller

abbrev waits_in : Controller → Loop
waits_in c = record { turn = free; controller = c }

takes :
    (call : Call) (calls : List Call) (c : Controller)
    → c.calls ≡ call ∷ calls
    → next (waits_in c) ≡ record { turn = taken call; controller = record c { calls = calls } }
unfolding control_step
takes call calls c e = rw e refl

served_head :
    (call : Call) (calls : List Call) (o : Option Car) (c : Controller)
    → c.calls ≡ call ∷ calls
    → select_best_car call c.cars ≡ o
    → serve_call c ≡ respond o call (record c { calls = calls })
unfolding serve_call
served_head call calls o c e choice = rw (e, choice) refl

-- Where no car reaches both floors, three critical sections are a round.
control_step-refused :
    (call : Call) (calls : List Call) (c : Controller)
    → c.calls ≡ call ∷ calls
    → select_best_car call c.cars ≡ none
    → next (next (next (waits_in c))) ≡ waits_in (serve_call c)
unfolding control_step
control_step-refused call calls c e choice =
    rw (takes call calls c e, choice, served_head call calls none c e choice) refl

-- Where a car is chosen, and is the first with its descriptor, four are.
control_step-served :
    (call : Call) (calls : List Call) (a : Car) (c : Controller)
    → c.calls ≡ call ∷ calls
    → select_best_car call c.cars ≡ some a
    → find_car a.fd c.cars ≡ some a
    → next (next (next (next (waits_in c)))) ≡ waits_in (serve_call c)
unfolding control_step
control_step-served call calls a c e choice found =
    rw (takes call calls c e, choice, found, served_head call calls (some a) c e choice) refl
