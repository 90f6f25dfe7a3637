-- ===== src/Tools/Sse.antt =====
-- tools/sse_probe.py: the reader of the event stream.
mod Framing
mod Frames
mod Streaming
mod Verdict
pub mod Chunks
pub mod Counting
pub mod Counts
pub mod Content
pub mod Windows
pub mod Silence
pub mod Advising
pub mod Connecting
pub mod Program
pub mod Racing
unfoldable pub use Framing.*
unfoldable pub use Frames.*
unfoldable pub use Streaming.*
unfoldable pub use Verdict.*
