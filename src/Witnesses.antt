-- ===== src/Witnesses.antt =====
-- The theorems at concrete inputs, with tests of the definitions.
pub mod Fixtures
mod Clients
mod Polls
mod Commands
mod Sensors
mod Flows
mod Packets
mod Messages
mod Streams
mod Races
mod Pairing
mod Lives
mod Interleavings
mod Outages
