-- ===== src/Car/Clock.antt =====
-- assignment2/car.c, `calculate_absolute_timeout`, and the test at the head of `elevator_loop`.
-- `tv_sec` and `tv_nsec` are of a time after 1970 and `delay` is not negative, so all are in ℕ.
use cab403work.Base.{
  ℕ, ◌+◌, ◌-◌, ◌*◌, ◌/◌, ◌%◌, ◌<◌, ◌≡◌, Bool, ◌&&◌, ◌||◌, arith, ltb, leb, ◌==◌, if◌then◌else◌,
}

pub record Timespec : Type 0 where
  pub tv_sec : ℕ
  pub tv_nsec : ℕ

-- `delay` milliseconds after `now`.
unfoldable pub absolute_timeout : ℕ → Timespec → Timespec
absolute_timeout delay now =
    let sec = now.tv_sec + delay / 1000 in
    let nsec = now.tv_nsec + delay % 1000 * 1000000 in
    if leb 1000000000 nsec
    then record { tv_sec = sec + 1; tv_nsec = nsec - 1000000000 }
    else record { tv_sec = sec; tv_nsec = nsec }

-- `current_time` is not before `timeout`.
unfoldable pub has_passed : Timespec → Timespec → Bool
has_passed current_time timeout =
    ltb timeout.tv_sec current_time.tv_sec
    || current_time.tv_sec == timeout.tv_sec && leb timeout.tv_nsec current_time.tv_nsec

-- A time in nanoseconds.
abbrev pub nanoseconds : Timespec → ℕ
nanoseconds t = t.tv_sec * 1000000000 + t.tv_nsec

-- From a clock reading with less than 10^9 nanoseconds, the deadline has less than 10^9
-- nanoseconds too and is exactly `delay` milliseconds later.
pub absolute_timeout_exact :
    (delay : ℕ) (now : Timespec)
    → now.tv_nsec < 1000000000
    → ((absolute_timeout delay now).tv_nsec < 1000000000)
      × (nanoseconds (absolute_timeout delay now) ≡ nanoseconds now + delay * 1000000)
unfolding absolute_timeout
absolute_timeout_exact delay now h = ground arith

-- On proper times the test is the order of the times in nanoseconds.
pub has_passed-le :
    (current_time timeout : Timespec)
    → current_time.tv_nsec < 1000000000
    → timeout.tv_nsec < 1000000000
    → (has_passed current_time timeout ≡ leb (nanoseconds timeout) (nanoseconds current_time))
unfolding has_passed
has_passed-le current_time timeout h k = ground arith
