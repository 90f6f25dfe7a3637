-- ===== src/Tools.antt =====
-- The command-line tools under tools/.
pub mod Mdns
pub mod Sse
pub mod Http
pub mod Pair
pub mod Experiments
