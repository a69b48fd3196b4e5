-- ===== src/Guest/Calls.antt =====
-- guest/src/lib.rs: the system calls of a guest thread, by the part of the kernel that they reach. The
-- number of a call and its order in handle_svc are in Dispatch.
pub mod Threads
pub mod Objects
pub mod Waits
pub mod Arbiters
pub mod Sessions
pub mod Queries
