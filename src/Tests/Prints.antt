-- ===== src/Tests/Prints.antt =====
-- week4/workshop4/semaphores/print_pid.c with two children.
use cab403work.Base.{ℕ, ◌+◌, ◌≡◌, ◌<◌, ◌⊎◌, refl, [], arith}
use cab403work.PrintPid.{Printing, done, Step, enter, enters, Reach, here, later, split}
use cab403work.PrintPid.Lines.{Printed, times, has_printed, Reach-Printed}
use cab403work.PrintPid.Progress.{some_child_goes_on}

abbrev pids : ℕ → ℕ
pids id = 4100 + id

-- The second child has taken the semaphore.
abbrev second_inside : Printing
second_inside = enter pids 2 1 0 (split [])

one_step : Reach pids 2 (split []) second_inside
one_step = later here (enters 1 0 (omega arith) refl refl)

Reach-Printed_example :
    Printed pids second_inside
    × ((j : ℕ) → times j second_inside.finished ≡ has_printed (second_inside.phase j))
Reach-Printed_example = Reach-Printed pids 2 [] one_step

some_child_goes_on_example :
    ((id : ℕ) → id < 2 → second_inside.phase id ≡ done)
    ⊎ ((s' : Printing) × Step pids 2 second_inside s')
some_child_goes_on_example = some_child_goes_on pids 2 [] one_step
