-- ===== src/Tests/Panels.antt =====
-- Runs of assignment2/internal.c and rounds of assignment2/safety.c.
use cab403work.Base.{◌≡◌, ◌⊎◌}
use cab403work.Base.Text.{codes}
use cab403work.Internal.{operate}
use cab403work.Internal.Operations.{Leaves, operate-Leaves}
use cab403work.Safety.{watch}
use cab403work.Safety.Checks.{IsConsistent, Watched, watch-IsConsistent, watch-Watched}
use cab403work.Tests.Given.{at_rest, sent_up}

operate-Leaves_example : Leaves at_rest (operate (codes "up") at_rest)
operate-Leaves_example = operate-Leaves (codes "up") at_rest

watch-IsConsistent_example :
    IsConsistent (watch sent_up).memory ⊎ ((watch sent_up).memory.emergency_mode ≡ 1)
watch-IsConsistent_example = watch-IsConsistent sent_up

watch-Watched_example : let m = record sent_up { overload = 1 } in Watched m (watch m)
watch-Watched_example = watch-Watched (record sent_up { overload = 1 })
