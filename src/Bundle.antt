-- ===== src/Bundle.antt =====
-- The crate bobr-bundle-launcher: the inspection of executables.
pub mod Elf
