-- ===== src/Mutex.antt =====
-- The programs of ipc/src/mutex.
pub mod Spin
pub mod Joined
pub mod Cond
