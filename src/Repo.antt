-- ===== src/Repo.antt =====
-- The remote repository: wire formats of the crate bobr-repo.
pub mod Error
pub mod Cbor
pub mod Master
pub mod Index
pub mod Tar
mod Tests
