-- ===== src/Hle.antt =====
-- hle/src: the kernel objects that threads wait for.
pub mod Notify
pub mod Sync
pub mod WaitSync
pub mod Session
pub mod Svc
pub mod Services
