-- ===== src/Tests/Exchanges.antt =====
-- assignment1/sharedMemory/shm_ipc.c on numbers.
use cab403work.Base.{ℕ, ◌+◌, ◌-◌, ◌*◌, ◌/◌, ◌≡◌, List, [], ◌∷◌, ◌++◌, map, true, false, arith}
use cab403work.ShmIpc.{Arithmetic, SharedData, op_add, gone, stopped, take_turns, started, draw}
use cab403work.ShmIpc.Phases.{answer}
use cab403work.ShmIpc.Exchange.{in_turns, exchange-answer, exchange_ends}

abbrev natural : Arithmetic ℕ
natural = record {
  plus = λ a b. a + b;
  minus = λ a b. a - b;
  times = λ a b. a * b;
  over = λ a b. a / b;
  nought = 0;
}

abbrev blank : SharedData ℕ
blank = record {
  controller_semaphore = 0;
  worker_semaphore = 0;
  operation = op_add;
  lhs = 0;
  rhs = 0;
  result = 0;
}

abbrev randoms : List (ℕ × ℕ × ℕ)
randoms = (4, 2, 3) ∷ (6, 5, 7) ∷ []

exchange-answer_example :
    (rest : List ℕ) × ((take_turns natural
          (true ∷ true ∷ false ∷ [])
          (started (map draw randoms) blank)).printed
        ++ rest
      ≡ map (answer natural) (map draw randoms))
exchange-answer_example = exchange-answer natural randoms blank (true ∷ true ∷ false ∷ [])

exchange_ends_example :
    let s =
      take_turns natural ((false ∷ true ∷ []) ++ in_turns 23) (started (map draw randoms) blank) in
    (s.controller ≡ gone)
    × (s.worker ≡ stopped)
    × (s.printed ≡ map (answer natural) (map draw randoms))
exchange_ends_example = exchange_ends natural randoms blank (false ∷ true ∷ []) 23 (omega arith)
