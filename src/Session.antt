-- ===== src/Session.antt =====
-- One session of pkg/petlibro: how it starts, the loops that run it, and how it ends.
pub mod Fresh
pub mod Send
pub mod Query
pub mod Commands
pub mod Handshake
pub mod Bootstrap
pub mod Loop
pub mod Dial
pub mod Maintenance
pub mod System
