-- ===== src/Controller/Dispatch/Order.antt =====
-- The order in which assignment2/controller.c answers calls: the connection threads append, and
-- the control loop goes from one critical section to the next, in any interleaving.
use cab403work.Base.{
  ℕ, ◌≡◌, refl, sym, ap, ◌∙◌, subst, List, [], ◌∷◌, ◌++◌, append_assoc, append-nil, map, Option,
  none, some,
}
use cab403work.Base.Text.{codes}
use cab403work.Libc.{truncated}
use cab403work.Controller.Queue.{insert_floors_into_queue}
use cab403work.Controller.State.{Car, Call, Message, Controller}
use cab403work.Controller.Dispatch.{
  select_best_car, write_back, find_car, call_direction, insert_now, Turn, free, taken, chosen,
  inserted, Loop, take_call, control_step, append_call,
}

-- One thread's critical section.
pub data Event : Type 0 where
  arrives : Call → Event
  goes_on : Event

abbrev pub happen : Event → Loop → Loop
happen (arrives call) l = record l { controller = append_call call l.controller }
happen goes_on l = control_step l.turn l.controller

pub run : List Event → Loop → Loop
run [] l = l
run (e ∷ es) l = run es (happen e l)

-- The calls that arrive.
abbrev pub arrivals : List Event → List Call
arrivals [] = []
arrivals (arrives call ∷ es) = call ∷ arrivals es
arrivals (goes_on ∷ es) = arrivals es

-- The call that the loop has taken and not answered.
abbrev pub in_hand : Turn → List Call
in_hand free = []
in_hand (taken call) = call ∷ []
in_hand (chosen call o) = call ∷ []
in_hand (inserted call car) = call ∷ []

abbrev pub fds : List Call → List ℕ
fds = map (λ call. call.fd)

abbrev unavailable : Call → Message
unavailable call = record { to = call.fd; text = codes "UNAVAILABLE" }

abbrev car_comes : Call → Car → Message
car_comes call car = record { to = call.fd; text = truncated 260 (codes "CAR " ++ car.name) }

-- The cars behind an insertion, and what the car is told of it.
abbrev cars_then : Option Car → Call → List Car → List Car
cars_then none call cars = cars
cars_then (some car) call cars =
    write_back (insert_floors_into_queue car call (call_direction call)).0 cars

abbrev told_then : Option Car → Call → List Message
told_then none call = []
told_then (some car) call = (insert_floors_into_queue car call (call_direction call)).1

-- The calls that were answered one behind the other, with the messages that went out and the cars as
-- they are then: each call has one answer, by the car that was chosen for it, behind what this car
-- was told.
pub data Answered (start : List Car) : List Call → List Message → List Car → Type 0 where
  nobody : Answered start [] [] start
  turned_away :
      {done : List Call} {sent : List Message} {cars : List Car} (call : Call)
      → Answered start done sent cars
      → select_best_car call cars ≡ none
      → Answered start (done ++ call ∷ []) (sent ++ unavailable call ∷ []) cars
  served :
      {done : List Call} {sent : List Message} {cars : List Car} (call : Call) (car : Car)
      → Answered start done sent cars
      → select_best_car call cars ≡ some car
      → Answered start
          (done ++ call ∷ [])
          ((sent ++ told_then (find_car car.fd cars) call) ++ car_comes call car ∷ [])
          (cars_then (find_car car.fd cars) call cars)

-- The part of a turn that is over.
abbrev pub Midway : Turn → List Car → List Message → List Car → List Message → Type 0
Midway free before sent cars messages = (cars ≡ before) × (messages ≡ sent)
Midway (taken call) before sent cars messages = (cars ≡ before) × (messages ≡ sent)
Midway (chosen call o) before sent cars messages =
    (cars ≡ before) × (messages ≡ sent) × (select_best_car call before ≡ o)
Midway (inserted call car) before sent cars messages =
    (cars ≡ cars_then (find_car car.fd before) call before)
    × (messages ≡ sent ++ told_then (find_car car.fd before) call)
    × (select_best_car call before ≡ some car)

-- What has become of the calls of `c` and of those that have arrived since.
pub record InOrder (c : Controller) (arrived : List Call) (l : Loop) : Type 0 where
  pub done : List Call
  pub sent : List Message
  pub cars : List Car
  pub answered : Answered c.cars done sent cars
  pub midway :
      (now : List Message) × (l.controller.messages ≡ c.messages ++ now)
      × Midway l.turn cars sent l.controller.cars now
  pub all_calls : done ++ in_hand l.turn ++ l.controller.calls ≡ c.calls ++ arrived
  pub closed : l.controller.closed ≡ c.closed ++ fds done

fds-append : (xs : List Call) (call : Call) → fds (xs ++ call ∷ []) ≡ fds xs ++ call.fd ∷ []
fds-append [] call = refl
fds-append (x ∷ xs) call = ap (λ l. x.fd ∷ l) (fds-append xs call)

-- `xs ++ ys` grows at its end.
grow :
    {A : Type 0} {zs : List A} (xs ys more : List A)
    → zs ≡ xs ++ ys
    → zs ++ more ≡ xs ++ (ys ++ more)
grow xs ys more e = ap (λ l. l ++ more) e ∙ append_assoc xs ys more

arrives-InOrder :
    (c : Controller) (arrived : List Call) (l : Loop) (call : Call)
    → InOrder c arrived l
    → InOrder c (arrived ++ call ∷ []) (happen (arrives call) l)
unfolding append_call
arrives-InOrder c arrived l call o = record {
  done = o.done;
  sent = o.sent;
  cars = o.cars;
  answered = o.answered;
  midway = o.midway;
  all_calls =
      sym (append_assoc (o.done ++ in_hand l.turn) l.controller.calls (call ∷ []))
      ∙ grow c.calls arrived (call ∷ []) o.all_calls;
  closed = o.closed;
}

answered_fds :
    {closed : List ℕ} (before : List ℕ) (done : List Call) (call : Call)
    → closed ≡ before ++ fds done
    → closed ++ call.fd ∷ [] ≡ before ++ fds (done ++ call ∷ [])
answered_fds before done call e =
    grow before (fds done) (call.fd ∷ []) e ∙ ap (λ l. before ++ l) (sym (fds-append done call))

take_call-InOrder :
    (c : Controller) (arrived : List Call) (k : Controller) (calls : List Call)
    → k.calls ≡ calls
    → InOrder c arrived (record { turn = free; controller = k })
    → InOrder c arrived (take_call calls k)
take_call-InOrder c arrived k [] e o = o
take_call-InOrder c arrived k (call ∷ calls) e o = record {
  done = o.done;
  sent = o.sent;
  cars = o.cars;
  answered = o.answered;
  midway = o.midway;
  all_calls =
      append_assoc o.done (call ∷ []) calls
      ∙ ap (λ l. o.done ++ l) (sym e)
      ∙ ap (λ l. l ++ k.calls) (sym (append-nil o.done))
      ∙ o.all_calls;
  closed = o.closed;
}

insert_now-Midway :
    (found : Option Car) (call : Call) (k : Controller)
    → ((insert_now found call k).cars ≡ cars_then found call k.cars)
      × ((insert_now found call k).messages ≡ k.messages ++ told_then found call)
      × ((insert_now found call k).calls ≡ k.calls)
      × ((insert_now found call k).closed ≡ k.closed)
insert_now-Midway none call k = (refl, sym (append-nil k.messages), refl, refl)
insert_now-Midway (some car) call k = (refl, refl, refl, refl)

control_step-InOrder :
    (c : Controller) (arrived : List Call) (turn : Turn) (k : Controller)
    → InOrder c arrived (record { turn = turn; controller = k })
    → InOrder c arrived (control_step turn k)
unfolding control_step
control_step-InOrder c arrived free k o = take_call-InOrder c arrived k k.calls refl o
control_step-InOrder c arrived (taken call) k o =
    let (now, messages, (cars, sent)) = o.midway in
    record {
      done = o.done;
      sent = o.sent;
      cars = o.cars;
      answered = o.answered;
      midway = (now, messages, (cars, sent, ap (select_best_car call) (sym cars)));
      all_calls = o.all_calls;
      closed = o.closed;
    }
control_step-InOrder c arrived (chosen call none) k o =
    let (now, messages, (cars, sent, choice)) = o.midway in
    record {
      done = o.done ++ call ∷ [];
      sent = o.sent ++ unavailable call ∷ [];
      cars = o.cars;
      answered = turned_away call o.answered choice;
      midway = (
        now ++ unavailable call ∷ [],
        grow c.messages now (unavailable call ∷ []) messages,
        (cars, ap (λ l. l ++ unavailable call ∷ []) sent),
      );
      all_calls = ap (λ l. l ++ k.calls) (append-nil (o.done ++ call ∷ [])) ∙ o.all_calls;
      closed = answered_fds c.closed o.done call o.closed;
    }
control_step-InOrder c arrived (chosen call (some car)) k o =
    let (now, messages, (cars, sent, choice)) = o.midway in
    let found = find_car car.fd k.cars in
    let same : found ≡ find_car car.fd o.cars = ap (find_car car.fd) cars in
    let (cars', messages', calls', closed') = insert_now-Midway found call k in
    record {
      done = o.done;
      sent = o.sent;
      cars = o.cars;
      answered = o.answered;
      midway = (
        now ++ told_then found call,
        messages' ∙ grow c.messages now (told_then found call) messages,
        (
          cars' ∙ ap (cars_then found call) cars ∙ ap (λ f. cars_then f call o.cars) same,
          ap (λ l. l ++ told_then found call) sent ∙ ap (λ f. o.sent ++ told_then f call) same,
          choice,
        ),
      );
      all_calls = ap (λ l. (o.done ++ call ∷ []) ++ l) calls' ∙ o.all_calls;
      closed = closed' ∙ o.closed;
    }
control_step-InOrder c arrived (inserted call car) k o =
    let (now, messages, (cars, sent, choice)) = o.midway in
    record {
      done = o.done ++ call ∷ [];
      sent = (o.sent ++ told_then (find_car car.fd o.cars) call) ++ car_comes call car ∷ [];
      cars = cars_then (find_car car.fd o.cars) call o.cars;
      answered = served call car o.answered choice;
      midway = (
        now ++ car_comes call car ∷ [],
        grow c.messages now (car_comes call car ∷ []) messages,
        (cars, ap (λ l. l ++ car_comes call car ∷ []) sent),
      );
      all_calls = ap (λ l. l ++ k.calls) (append-nil (o.done ++ call ∷ [])) ∙ o.all_calls;
      closed = answered_fds c.closed o.done call o.closed;
    }

run_lem :
    (es : List Event) (c : Controller) (arrived : List Call) (l : Loop)
    → InOrder c arrived l
    → InOrder c (arrived ++ arrivals es) (run es l)
unfolding run
run_lem [] c arrived l o = subst (λ a. InOrder c a l) (sym (append-nil arrived)) o
run_lem (arrives call ∷ es) c arrived l o =
    subst (λ a. InOrder c a (run es (happen (arrives call) l)))
      (append_assoc arrived (call ∷ []) (arrivals es))
      (run_lem es c (arrived ++ call ∷ []) (happen (arrives call) l)
        (arrives-InOrder c arrived l call o))
run_lem (goes_on ∷ es) c arrived l o =
    run_lem es c arrived (happen goes_on l) (control_step-InOrder c arrived l.turn l.controller o)

-- In every interleaving of arriving calls and critical sections of the control loop, from its wait
-- on: the answered calls, the one in hand and the waiting ones are those of the beginning followed by
-- the arrivals, in their order. The messages that have gone out are, for each answered call in turn,
-- what the chosen car was told and one answer, "CAR" with the name of the first car that reaches both
-- floors then or "UNAVAILABLE" where there is none, and behind them what the car chosen for the call
-- in hand was told; each answered call's descriptor was closed once.
pub run-InOrder :
    (es : List Event) (c : Controller)
    → InOrder c (arrivals es) (run es (record { turn = free; controller = c }))
run-InOrder es c =
    run_lem es c [] (record { turn = free; controller = c })
      (record {
        done = [];
        sent = [];
        cars = c.cars;
        answered = nobody;
        midway = ([], sym (append-nil c.messages), (refl, refl));
        all_calls = sym (append-nil c.calls);
        closed = sym (append-nil c.closed);
      })
