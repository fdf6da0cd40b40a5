-- ===== src/Virtual.antt =====
-- The package virtual: participants that do not speak the protocol themselves.
pub mod Pool
pub mod Manager
pub mod Client
