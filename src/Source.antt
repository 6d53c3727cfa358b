-- ===== src/Source.antt =====
-- The crate bobr-source: planning of request graphs.
pub mod Graph
