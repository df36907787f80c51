-- ===== src/Shared.antt =====
-- assignment2/shared.h: what the programs of the elevator system have in common.
pub mod Memory
pub mod Floors
pub mod Wire
