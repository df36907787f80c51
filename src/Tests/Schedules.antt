-- ===== src/Tests/Schedules.antt =====
-- exam/week9/roundRobinScheduling_Skeleton.c with three processes.
use cab403work.Base.{ℕ, ◌≡◌, refl, List, [], ◌∷◌, none, ◌==◌, if◌then◌else◌, arith}
use cab403work.Base.Text.{All}
use cab403work.Base.Int.{ℤ, pos, ◌≤ℤ◌}
use cab403work.RoundRobin.{schedule, print_linked_list}
use cab403work.RoundRobin.Schedule.{Queues, view, turns, schedule-turns}
use cab403work.RoundRobin.Served.{prepared, prepared-Prepared, Prepared-Queues, schedule-ends}
use cab403work.RoundRobin.Endless.{schedule-print_linked_list}

abbrev bursts : ℕ → ℤ
bursts p = if p == 1 then pos 45 else pos 10

schedule-turns_example :
    (ys : List ℕ) × Queues (schedule 2 (prepared (1 ∷ 2 ∷ []) (λ p. none) bursts)) ys
    × (view (schedule 2 (prepared (1 ∷ 2 ∷ []) (λ p. none) bursts)) ys
        ≡ turns 2 (view (prepared (1 ∷ 2 ∷ []) (λ p. none) bursts) (1 ∷ 2 ∷ [])))
schedule-turns_example = schedule-turns 2 (prepared (1 ∷ 2 ∷ []) (λ p. none) bursts) (1 ∷ 2 ∷ []) (
    Prepared-Queues (prepared (1 ∷ 2 ∷ []) (λ p. none) bursts) (1 ∷ 2 ∷ []) bursts
      (prepared-Prepared (1 ∷ 2 ∷ []) (λ p. none) bursts (((omega arith), tt), (tt, tt))))

schedule-ends_example :
    let s = schedule 60 (prepared (1 ∷ 2 ∷ []) (λ p. none) bursts) in
    (s.job_head ≡ none) × All (λ p. s.burst p ≤ℤ pos 0) (1 ∷ 2 ∷ [])
schedule-ends_example =
    schedule-ends (1 ∷ 2 ∷ []) (λ p. none) bursts 60 (((omega arith), tt), (tt, tt)) (omega arith)

schedule-print_linked_list_example :
    let s = schedule 3 (prepared (1 ∷ 2 ∷ 3 ∷ []) (λ p. none) bursts) in
    print_linked_list 9 s.next s.ready_head ≡ none
schedule-print_linked_list_example =
    schedule-print_linked_list 1 2 (3 ∷ []) (λ p. none) bursts 2 9
      (((omega arith), ((omega arith), tt)), (((omega arith), tt), (tt, tt))) refl
