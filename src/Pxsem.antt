-- ===== src/Pxsem.antt =====
-- ipc/src/pxsem: producers and consumers over POSIX semaphores.
pub mod ManyToMany
pub mod ManyToOne
pub mod Main
pub mod MainOne
pub mod Buffers
pub mod OneToOne
