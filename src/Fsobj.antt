-- ===== src/Fsobj.antt =====
-- The crate fsobj-hash: the hash of a filesystem object, a file, a directory tree or a symbolic
-- link, and the trees that archives describe.
pub mod Hash
pub mod Archive
