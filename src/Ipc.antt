-- ===== src/Ipc.antt =====
-- The commands of ipc/src that make and remove semaphores, shared memory and message queues.
pub mod SharedMemory
pub mod Semaphores
pub mod SystemV
pub mod Queues
pub mod Regions
pub mod Values
pub mod Laws
mod Tests
