-- ===== src/Mote.antt =====
-- crates/kotva-core/src/mote.rs: the message object, how it is built and how a recipient validates it.
pub mod Kind
pub mod Challenge
pub mod File
pub mod Envelope
pub mod Validate
pub mod ReadBack
pub mod OnWire
pub mod Delivered
pub mod Hybrid
pub mod Anonymous
pub mod Opening
pub mod Checks
pub mod Pinned
pub mod FileLaws
mod Tests
mod FileTests
mod WireTests
