-- ===== src/Tests/Attempts.antt =====
-- The connection thread of assignment2/car.c that is refused once, and whose last write fails.
use cab403work.Base.{true, none, some, List, [], ◌∷◌}
use cab403work.Base.Text.{codes}
use cab403work.Car.Connection.{poll_error, poll_timeout}
use cab403work.Car.Attempts.{no_controller, monitored, Attempt, attempts, unconnected}
use cab403work.Car.Attempts.Greeted.{IsOrderly, attempts-IsOrderly}
use cab403work.Tests.Given.{at_rest}

abbrev refused_once : List Attempt
refused_once =
    record {
      fd = 4;
      setup = no_controller;
      memory = at_rest;
      rounds = [];
      failing_write = none;
      monitor_ends = true;
    }
    ∷ record {
      fd = 5;
      setup = monitored;
      memory = at_rest;
      rounds =
          record { connection_alive = true; polled = poll_timeout; now = at_rest; memory = at_rest }
          ∷ record { connection_alive = true; polled = poll_error; now = at_rest; memory = at_rest }
          ∷ [];
      failing_write = none;
      monitor_ends = true;
    }
    ∷ record {
      fd = 6;
      setup = monitored;
      memory = at_rest;
      rounds = [];
      failing_write = some 1;
      monitor_ends = true;
    }
    ∷ []

attempts-IsOrderly_example :
    IsOrderly
      (codes "Alpha")
      (codes "1")
      (codes "9")
      (attempts (codes "Alpha") (codes "1") (codes "9") refused_once unconnected)
attempts-IsOrderly_example = attempts-IsOrderly (codes "Alpha") (codes "1") (codes "9") refused_once
