-- ===== src/Tests/Conditions.antt =====
-- week6/workshop6/condition.c with two producers and two consumers.
use cab403work.Base.{◌+◌, ◌≡◌, ◌≤◌, refl, false, suc, arith}
use cab403work.Condition.{
  is_empty, fresh, producer, consumer, Ring, Step, produces, consumes, Reach, here, later,
  all_started,
}
use cab403work.Condition.Consistent.{used, IsConsistent, Reach-IsConsistent}
use cab403work.Condition.Progress.{someone_goes_on}

-- A consumer waits, and a producer fills a place.
abbrev one_filled : Ring
one_filled = producer fresh 1 (consumer fresh 1 (all_started 2 2))

fills_one : Reach (all_started 2 2) one_filled
unfolding consumer
fills_one = later (later here (consumes fresh 1 refl)) (produces fresh 1 refl)

Reach-IsConsistent_example :
    IsConsistent one_filled
    × (used one_filled ≤ 4)
    × (one_filled.buffer one_filled.in_place ≡ 0)
    × (is_empty one_filled ≡ false → one_filled.buffer one_filled.out_place ≡ 1)
Reach-IsConsistent_example = Reach-IsConsistent fills_one

someone_goes_on_example :
    (s' : Ring) × Step one_filled s'
    × (s'.produced + s'.consumed ≡ suc (one_filled.produced + one_filled.consumed))
someone_goes_on_example = someone_goes_on (omega arith) (omega arith) fills_one
