-- ===== src/Repo/Cbor.antt =====
-- bobr-repo/src/cbor.rs: the deterministic-CBOR encoder and decoder.
pub mod Encode
pub mod Decode
pub mod Reads
pub mod Accepts
pub mod Head
pub mod RoundTrip
pub mod Canonical
pub mod Items
