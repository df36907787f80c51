-- ===== src/Tests.antt =====
-- Concrete runs of the programs: each theorem of the results applied to one of them.
pub mod Given
pub mod Attempts
pub mod Arrays
pub mod Buffers
pub mod Cars
pub mod Controllers
pub mod Chats
pub mod Conditions
pub mod Links
pub mod Exchanges
pub mod Floors
pub mod Queued
pub mod Queues
pub mod Panels
pub mod Pointers
pub mod Prints
pub mod Schedules
pub mod Systems
pub mod Tables
