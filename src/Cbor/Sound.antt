-- ===== src/Cbor/Sound.antt =====
-- crates/kotva-core/src/cbor.rs: what `decode` accepts is canonical, and is the encoding of the value
-- returned.
mod Head
mod Map
mod Value
pub use Value.*
