-- ===== src/Pygc3.antt =====
-- The wire library pygc3 (pygc3/src/pygc3): what the panel says, typed, and the client that asks it.
pub mod Models
pub mod Client
pub mod Parsing
pub mod Wire
