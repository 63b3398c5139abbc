-- ===== src/Kt.antt =====
-- crates/kotva-core/src/kt.rs: key transparency, an RFC 6962 Merkle log.
pub mod Wire
mod Tests
pub mod Coercions
pub mod WireLaws
pub mod Merkle
pub mod Consistency
