-- ===== src/Sockets.antt =====
-- The programs of tcp-ip/socket/src.
pub mod Select
pub mod Epoll
pub mod Forking
pub mod Hello
pub mod Echo
pub mod Files
pub mod FileServer
pub mod Calculator
pub mod Chat
mod Tests
