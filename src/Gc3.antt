-- ===== src/Gc3.antt =====
-- The Home Assistant integration (custom_components/gc3): the coordinator that polls the panel, and
-- the entities that show and command it.
pub mod Const
pub mod Coordinator
pub mod AlarmControlPanel
pub mod BinarySensor
pub mod Sensor
pub mod Setup
pub mod ConfigFlow
pub mod Entity
pub mod Diagnostics
pub mod Lifetime
pub mod Displays
pub mod Interleaving
pub mod Platforms
