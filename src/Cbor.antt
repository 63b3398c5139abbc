-- ===== src/Cbor.antt =====
-- crates/kotva-core/src/cbor.rs: canonical deterministic CBOR.
pub mod Value
pub mod Utf8
pub mod Encode
pub mod Decode
pub mod Head
pub mod Canonical
pub mod Order
pub mod ReadKey
pub mod MapLoop
pub mod RoundTrip
pub mod Sound
pub mod KeyOrder
pub mod Equality
pub mod Reader
pub mod Consume
pub mod Inverse
pub mod ReadBack
mod Tests
