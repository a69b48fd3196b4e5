-- ===== src/Ipc.antt =====
-- kernel/src/ipc.rs: the command buffer of an inter-process request or response, its writers and its
-- readers.
pub mod Header
pub mod Param
pub mod Writer
pub mod Reader
pub mod Request
pub mod Words
pub mod Written
pub mod Read
pub mod Message
pub mod RoundTrip
