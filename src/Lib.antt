-- ===== src/Lib.antt =====
-- Bobr: the wire formats of its remote repository, the hashes of filesystem objects, the plan of a
-- request graph, the protocol between the sandbox and its launcher, and the executables of a bundle.
--
-- A repository publishes a signed master (bobr-repo/src/master.rs). Its payload is deterministic
-- CBOR (bobr-repo/src/cbor.rs) and names, for each slot, two mapping indexes and two content
-- lists (bobr-repo/src/index.rs) by their digests. A client decodes the payload, takes the active
-- slot and looks keys and hashes up in the indexes.
--
-- An object is a file, a directory or a link with a hash (fsobj-hash/src/hash.rs); it can come from
-- a tar archive, whose paths and entries are checked before they make a tree
-- (fsobj-hash/src/tar_source.rs and fsobj-hash/src/normalize.rs). A request names nodes with recipes;
-- the planner finds the build keys of the goals and of what they need (bobr-source/src/graph.rs). A
-- builder runs its steps in a sandbox, from which events come back over a pipe
-- (bobr-sandbox-launcher/src/protocol.rs, read in bobr-sandbox/src/lifecycle.rs). A bundle's launcher
-- inspects the executable before it starts it (bobr-bundle-launcher/src/elf.rs).
--
-- Files and what they model:
--   Base              shared names, byte strings and their order, UTF-8, results, pieces of lists
--   Repo/Error        bobr-repo/src/error.rs: one constructor for each message of the code below
--   Repo/Cbor/Encode  `Encoder`; a method with `&mut self` returns the encoder after the call
--   Repo/Cbor/Decode  `Decoder`; a method is an action of a state monad with errors
--   Repo/Cbor/Reads, Head, RoundTrip    an action reads given bytes: rules and the items
--   Repo/Cbor/Accepts, Canonical        what an action that succeeded has consumed
--   Repo/Cbor/Items   both directions together, in terms of `Encoder` and `Decoder` alone
--   Repo/Master       `Slot`, `Master`, `validate`, `active_slot`, `encode_payload`,
--                     `decode_payload`; its children are on the layout of the payload (Layout), the
--                     round trip (RoundTrip), what is accepted (Canonical) and the slots (Slots,
--                     with the last current one in Slots/Newest)
--   Repo/Index        `MappingIndex`, `ContentList`, `lower_bound`; its children are on the
--                     search (Search), the lists (Content, Contains, Encode) and the mappings
--                     (Mapping, Candidates, Lookup)
--   Repo/Tar          bobr-repo/src/tar_profile.rs: header fields, the split of a path and
--                     `normalize_path`; its children are on octal fields (Octal), sizes (Size),
--                     the path fields (Path) and paths (Normalize)
--   Repo/Tar/Nodes    `ExtractState::insert_path`, over a parameter for the file system; its child
--                     Parents is on the parents of a node
--   Repo/Tar/Reader   `read_block`, `read_entry_bytes`, `copy_entry_bytes`, `skip_entry_bytes` and
--                     `read_padding`; its child Blocks is on what they consume
--   Repo/Tar/Header   `parse_header` and `validate_checksum`
--   Repo/Tar/Extract  `ExtractState` with `read_long` and `extract_logical`, over the parameter
--                     `FsApi` for the calls of the file system; its child Limits is on what
--                     an entry does to the state
--   Repo/Tar/Archive  `extract_directory_tar`; its children are on what the steps take (Spent) and on
--                     the whole archive (Whole)
--   HexHash           fsobj-hash/src/hex_hash.rs and the hexadecimal functions of
--                     bobr-repo/src/format.rs; HexHash/Codec is on both together
--   Fsobj/Hash        fsobj-hash/src/hash.rs and fsobj-hash/src/node.rs; Reduction is on equal hashes,
--                     Layout on the bytes of the format, Tagged on the hashes against them
--   Fsobj/Archive     fsobj-hash/src/normalize.rs: the paths (child Paths) and the entries (Insert)
--   Fsobj/Archive/Tree    `build_tree` and `load_tar_reader`; its children are on the tree's making
--                     (Total), its directories (Children) and what it has at a path (Lookup)
--   Store/RefName     `validate_ref_name` of bobr-store/src/ref_name.rs
--   Source/Graph      recipes of bobr-source/src/graph.rs and bobr-source/src/lib.rs
--   Source/Graph/Planner    `plan_graph` and `Planner::collect`; its children are on the path (Visits)
--                     and the fuel (Fuel), the nodes of a request (Meaning), what a node's planning
--                     does (Made), the plan (Sound) and the goals (Goals)
--   Launcher/Events   `write_sandbox_event`, `SandboxEventDecoder` and `drain_sandbox_events`; its
--                     children are on frames (Frames), streams of them (Stream) and the fuel (Total)
--   Launcher/Targets  `relative_launcher_target` and `validate_launcher_config`; its child Relative is
--                     on the targets below the root
--   Bundle/Elf        bobr-bundle-launcher/src/elf.rs: `inspect_elf_for_arch`; its children are on the
--                     program headers (Interpreter) and the whole file (Accept)
--   Tests             in each component: runs on small inputs, and the theorems at such inputs
--
-- Conventions. A byte is a number below 256, a `u64` one below 2 ^ 64, and `usize` has 64 bits.
-- Keys and hashes are byte strings of 32 bytes. An error is a constructor where the source has a
-- text. The crate `url` is the parameter `UrlApi`; the answer of `try_reserve_exact` is the
-- parameter of that name. A map is an association list in which the first pair of a key counts.
-- SHA-256, the JSON of an event, the registry of builders and the parsers of hashes and origins are
-- parameters; a JSON value is a data type with the constructors that the source matches on.
--
-- Bounds and fuel. `lower_bound` runs on fuel that is the number of records: each round makes the
-- range shorter, so the loop ends before the fuel does. `decode_slots` recurs on the count of slots
-- that it reads, as the loop of the source does. `octal_digits` runs on 22 digits, which every
-- `u64` fits. `padding_loop` runs on as many rounds as there are bytes left.
-- `extract_loop` runs on one more than the bytes of the input: each round reads a block.
-- `build_directory` runs on one more than the length of the longest path, `collect` on one more than
-- the number of nodes (those on the path are different), and `emit_events` on one more than the number
-- of bytes (an event takes four or more).
--
-- Not modelled: signing and verification of masters (COSE and Ed25519 come from other crates),
-- the opening of index files, the writer of tar archives of the repository, the walk over a
-- directory in fsobj-hash, and whatever is input and output: HTTP, the object store's directories
-- and locks, processes, namespaces and mounts, logging and the command lines.
pub mod Base
pub mod Bundle
pub mod HexHash
pub mod Launcher
pub mod Fsobj
pub mod Repo
pub mod Source
pub mod Store
