-- ===== src/Store.antt =====
-- The crate bobr-store: the names of refs.
pub mod RefName
