-- ===== src/Launcher.antt =====
-- The crate bobr-sandbox-launcher: the event stream and the mount targets of protocol.rs, with the
-- reader of the stream in bobr-sandbox/src/lifecycle.rs.
pub mod Events
pub mod Targets
mod Tests
