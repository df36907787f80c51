-- ===== src/Controller.antt =====
-- assignment2/controller.c: the scheduler of the elevator cars.
pub mod State
pub mod Queue
pub mod Dispatch
pub mod Messages
pub mod Connections
pub mod Listener
