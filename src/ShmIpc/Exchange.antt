-- ===== src/ShmIpc/Exchange.antt =====
-- The exchange of assignment1/sharedMemory/shm_ipc.c: in every order of turns the controller prints
-- the results of its calls, and both processes come to their ends.
use cab403work.Base.{
  ℕ, zero, suc, ◌+◌, ◌*◌, ◌%◌, ◌==◌, if◌then◌else◌, ◌≤◌, ◌≡◌, inl, inr, refl, sym, ap, ◌∙◌, arith,
  Bool, true, false, List, [], ◌∷◌, ◌++◌, map, length, append_assoc, append-nil,
}
use cab403work.ShmIpc.{
  Operation, op_add, op_sub, op_mul, op_div, Arithmetic, SharedData, Task, gone, stopped, Ipc,
  take_turn, take_turns, started, next_op, draw,
}
use cab403work.ShmIpc.Turns.{next-Kept, next-rank, rank_zero}
use cab403work.ShmIpc.Phases.{
  IsWork, answer, Phase, calm, over, state, open_calls, AllWork, rank, next, prints,
  controller-next, worker-next,
}

-- The one process and the other, in turns.
abbrev pub in_turns : ℕ → List Bool
in_turns zero = []
in_turns (suc n) = true ∷ false ∷ in_turns n

module _ {D : Type 0} (arithmetic : Arithmetic D) where
  -- The state behind some turns.
  record Behind (s : Ipc D) (p : Phase arithmetic) (out : List D) : Type 0 where
    phase : Phase arithmetic
    printed : List D
    here : s ≡ state arithmetic phase printed
    promise :
        printed ++ map (answer arithmetic) (open_calls arithmetic phase)
        ≡ out ++ map (answer arithmetic) (open_calls arithmetic p)
    works : AllWork arithmetic (open_calls arithmetic phase)
    left : rank arithmetic phase ≤ rank arithmetic p

  take_turn-next :
      (side : Bool) (p : Phase arithmetic) (out : List D)
      → AllWork arithmetic (open_calls arithmetic p)
      → take_turn arithmetic side (state arithmetic p out)
        ≡ state arithmetic (next arithmetic side p) (out ++ prints arithmetic side p)
  take_turn-next true p out h = controller-next arithmetic p out
  take_turn-next false p out h =
      worker-next arithmetic p out h
      ∙ ap (state arithmetic (next arithmetic false p)) (sym (append-nil out))

  take_turns-Behind :
      (sides : List Bool) (p : Phase arithmetic) (out : List D)
      → AllWork arithmetic (open_calls arithmetic p)
      → Behind (take_turns arithmetic sides (state arithmetic p out)) p out
  unfolding take_turns
  take_turns-Behind [] p out h = record {
    phase = p;
    printed = out;
    here = refl;
    promise = refl;
    works = h;
    left = omega arith;
  }
  take_turns-Behind (side ∷ sides) p out h =
      let (promise, works, left) = next-Kept arithmetic side p in
      let out' = out ++ prints arithmetic side p in
      let b = take_turns-Behind sides (next arithmetic side p) out' (works h) in
      record {
        phase = b.phase;
        printed = b.printed;
        here = ap (take_turns arithmetic sides) (take_turn-next side p out h) ∙ b.here;
        promise =
            b.promise
            ∙ append_assoc out (prints arithmetic side p)
                (map (answer arithmetic) (open_calls arithmetic (next arithmetic side p)))
            ∙ ap (λ l. out ++ l) promise;
        works = b.works;
        left = let last = b.left in omega arith;
      }

  take_turns-in_turns :
      (n : ℕ) (s : Ipc D)
      → take_turns arithmetic (in_turns (suc n)) s
        ≡ take_turns arithmetic
            (in_turns n)
            (take_turn arithmetic false (take_turn arithmetic true s))
  unfolding take_turns
  take_turns-in_turns n s = refl

  take_turns-append :
      (xs ys : List Bool) (s : Ipc D)
      → take_turns arithmetic (xs ++ ys) s ≡ take_turns arithmetic ys (take_turns arithmetic xs s)
  unfolding take_turns
  take_turns-append [] ys s = refl
  take_turns-append (x ∷ xs) ys s = take_turns-append xs ys (take_turn arithmetic x s)

  run_none : (s : Ipc D) → take_turns arithmetic [] s ≡ s
  unfolding take_turns
  run_none s = refl

  two_turns :
      (p : Phase arithmetic) (out : List D)
      → AllWork arithmetic (open_calls arithmetic p)
      → take_turn arithmetic false (take_turn arithmetic true (state arithmetic p out))
        ≡ state arithmetic
            (next arithmetic false (next arithmetic true p))
            (out ++ prints arithmetic true p)
  two_turns p out h =
      ap (take_turn arithmetic false) (controller-next arithmetic p out)
      ∙ worker-next arithmetic (next arithmetic true p) (out ++ prints arithmetic true p)
          ((next-Kept arithmetic true p).1 h)

  -- With a pair of turns for each turn that is left, both processes are at their ends.
  take_turns-over :
      (n : ℕ) (p : Phase arithmetic) (out : List D)
      → AllWork arithmetic (open_calls arithmetic p)
      → rank arithmetic p ≤ n
      → (x : D) × (end : List D) × (take_turns arithmetic (in_turns n) (state arithmetic p out)
          ≡ state arithmetic (over true x) end)
        × (end ≡ out ++ map (answer arithmetic) (open_calls arithmetic p))
  take_turns-over zero p out h le =
      let (x, e) = rank_zero arithmetic p (omega arith) in
      rw e (x, out, run_none (state arithmetic (over true x) out), sym (append-nil out))
  take_turns-over (suc n) p out h le =
      let q = next arithmetic true p in
      let (promise, works, left) = next-Kept arithmetic true p in
      let (promise', works', left') = next-Kept arithmetic false q in
      let enough : rank arithmetic (next arithmetic false q) ≤ n = elim (next-rank arithmetic p) [
        | inl e ↦ omega arith
        | inr less ↦ omega arith
      ] in
      let (x, end, here, all) =
        take_turns-over n (next arithmetic false q) (out ++ prints arithmetic true p)
          (works' (works h)) enough in
      (
        x,
        end,
        take_turns-in_turns n (state arithmetic p out)
            ∙ ap (take_turns arithmetic (in_turns n)) (two_turns p out h)
            ∙ here,
        all
            ∙ append_assoc out (prints arithmetic true p)
                (map (answer arithmetic) (open_calls arithmetic (next arithmetic false q)))
            ∙ ap (λ l. out ++ l) (ap (λ l. prints arithmetic true p ++ l) promise' ∙ promise),
      )

either_IsWork : (b : Bool) (x y : Operation) → IsWork x → IsWork y → IsWork (if b then x else y)
either_IsWork true x y v w = v
either_IsWork false x y v w = w

next_op-IsWork : (random : ℕ) → IsWork (next_op random)
unfolding next_op
next_op-IsWork random =
    let n = random % 4 in
    let thirds = either_IsWork (n == 2) op_mul op_div tt tt in
    let seconds = either_IsWork (n == 1) op_sub (if n == 2 then op_mul else op_div) tt thirds in
    either_IsWork (n == 0) op_add (if n == 1 then op_sub else if n == 2 then op_mul else op_div) tt
      seconds

draws-AllWork :
    {D : Type 0} (arithmetic : Arithmetic D) (randoms : List (ℕ × D × D))
    → AllWork arithmetic (map draw randoms)
unfolding AllWork
draws-AllWork arithmetic [] = tt
draws-AllWork arithmetic (r ∷ randoms) = (next_op-IsWork r.0, draws-AllWork arithmetic randoms)

-- In whatever order the two processes take their turns, what the controller has printed is the
-- beginning of the right answers to its calls, in their order: none is lost, printed twice or read
-- before the worker has computed it.
pub exchange-answer :
    {D : Type 0} (arithmetic : Arithmetic D) (randoms : List (ℕ × D × D)) (m : SharedData D)
    (sides : List Bool)
    → (rest : List D) × ((take_turns arithmetic sides (started (map draw randoms) m)).printed
          ++ rest
        ≡ map (answer arithmetic) (map draw randoms))
exchange-answer {D} arithmetic randoms m sides =
    let before : Task D = record { operation = m.operation; lhs = m.lhs; rhs = m.rhs } in
    let b =
      take_turns-Behind arithmetic sides (calm (map draw randoms) before m.result) []
        (draws-AllWork arithmetic randoms) in
    (
      map (answer arithmetic) (open_calls arithmetic b.phase),
      ap (λ (s : Ipc D). s.printed ++ map (answer arithmetic) (open_calls arithmetic b.phase))
            b.here
          ∙ b.promise,
    )

length-map : {A B : Type 0} (f : A → B) (xs : List A) → length (map f xs) ≡ length xs
length-map f [] = refl
length-map f (x ∷ xs) = let e = length-map f xs in omega arith

-- The exchange ends: whatever turns have been taken before, 7 n + 9 further pairs of turns for n
-- calls bring the controller and the worker to their ends, with the right answers printed.
pub exchange_ends :
    {D : Type 0} (arithmetic : Arithmetic D) (randoms : List (ℕ × D × D)) (m : SharedData D)
    (sides : List Bool) (n : ℕ)
    → 7 * length randoms + 9 ≤ n
    → let s = take_turns arithmetic (sides ++ in_turns n) (started (map draw randoms) m) in
      (s.controller ≡ gone)
      × (s.worker ≡ stopped)
      × (s.printed ≡ map (answer arithmetic) (map draw randoms))
exchange_ends {D} arithmetic randoms m sides n le =
    let before : Task D = record { operation = m.operation; lhs = m.lhs; rhs = m.rhs } in
    let b =
      take_turns-Behind arithmetic sides (calm (map draw randoms) before m.result) []
        (draws-AllWork arithmetic randoms) in
    let enough : rank arithmetic b.phase ≤ n =
      let left = b.left in let same = length-map draw randoms in omega arith in
    let (x, end, here, all) = take_turns-over arithmetic n b.phase b.printed b.works enough in
    let there =
      take_turns-append arithmetic sides (in_turns n) (started (map draw randoms) m)
      ∙ ap (take_turns arithmetic (in_turns n)) b.here
      ∙ here in
    (
      ap (λ (s : Ipc D). s.controller) there,
      ap (λ (s : Ipc D). s.worker) there,
      ap (λ (s : Ipc D). s.printed) there ∙ all ∙ b.promise,
    )
