-- ===== src/Tests.antt =====
-- Concrete worlds, messages and memories, and the theorems at them.
pub mod Threads
pub mod Messages
pub mod Blocks
pub mod Spaces
pub mod Tables
pub mod Calls
pub mod Guests
pub mod Services
pub mod Runs
pub mod Dynarmic
