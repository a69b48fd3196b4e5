-- ===== src/Kernel.antt =====
-- kernel/src/lib.rs: signals, arbitration, threads, the store of kernel objects and wake-ups.
pub mod Signal
pub mod Arbitration
pub mod World
pub mod Wake
pub mod Suspend
pub mod Handles
pub mod Translate
pub mod Ports
pub mod Run
pub mod Context
