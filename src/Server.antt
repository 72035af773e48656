-- ===== src/Server.antt =====
-- The north-server crate: the parts of it that decide without a database or a socket.
pub mod Limiter
pub mod Cidr
pub mod Identity
pub mod Context
