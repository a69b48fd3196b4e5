-- ===== src/System.antt =====
-- kernel/src and hle/src together: what each operation of the kernel keeps, and whole runs of it.
pub mod Steady
pub mod Quiet
pub mod Runs
pub mod Progress
