-- ===== src/Car.antt =====
-- assignment2/car.c: the process of one elevator car.
pub mod Floors
pub mod Clock
pub mod Elevator
pub mod Emergency
pub mod Service
pub mod Normal
pub mod Loop
pub mod Attempts
pub mod Connection
