-- ===== src/Fsobj/Archive/Tree.antt =====
-- `build_tree` of fsobj-hash/src/normalize.rs, and the loop of `load_tar_reader` in
-- fsobj-hash/src/tar_source.rs, over the entries that the tar crate reads. The recursion of
-- `build_directory` is on fuel: one more than the length of the longest path. The `expect` is `none`.
pub mod Total
pub mod Children
pub mod Lookup
use bobr.Base.{
  ℕ, zero, suc, ◌+◌, Bool, true, false, Option, none, some, List, [], ◌∷◌, ◌++◌, length,
  if◌then◌else◌, bit_and, ◌==◌, ltb, bytes_eq, Result, ok, err, ◌>>=◌, not, Ordering,
}
use bobr.Base.Order.{cmp}
use bobr.Fsobj.Hash.{FileNode, Node, file_node, directory_node, symlink_node, Entries, nil, cons}
use bobr.Fsobj.Archive.{
  TarEntryKind, Error, tar_read, unsupported_tar_entry, Components, PendingEntry, PendingEntries,
  file, directory, symlink, components_eq, get, insert_entry, normalize_archive_path,
}

-- A `BTreeSet` of names as a sorted list.
unfoldable pub insert_name : List ℕ → List (List ℕ) → List (List ℕ)
insert_name name [] = name ∷ []
insert_name name (n ∷ ns) =
    let rest = insert_name name ns in
    elim (cmp name n) [
      | Ordering.lt ↦ name ∷ n ∷ ns
      | Ordering.eq ↦ n ∷ ns
      | Ordering.gt ↦ n ∷ rest
    ]

-- Whether the parent of a path is the prefix; then its last name.
unfoldable pub child_name : Components → Components → Option (List ℕ)
child_name [] [] = none
child_name [] (d ∷ []) = some d
child_name [] (d ∷ e ∷ ds) = none
child_name (c ∷ cs) [] = none
child_name (c ∷ cs) (d ∷ ds) = let rest = child_name cs ds in if bytes_eq c d then rest else none

-- `child_names.get(prefix)`.
unfoldable pub child_names : PendingEntries → Components → List (List ℕ)
child_names [] prefix = []
child_names ((path, entry) ∷ entries) prefix =
    let rest = child_names entries prefix in
    elim (child_name prefix path) [ none ↦ rest | some name ↦ insert_name name rest ]

-- The node of one child.
abbrev pub child_node : (Components → Option Node) → Components → Option PendingEntry → Option Node
child_node build path none = none
child_node build path (some (file f)) = some (file_node f)
child_node build path (some (symlink target)) = some (symlink_node target)
child_node build path (some directory) = build path

abbrev pub push_entry : List ℕ → Option Node → Option Entries → Option Entries
push_entry name none entries = none
push_entry name (some node) none = none
push_entry name (some node) (some entries) = some (cons name node entries)

-- The loop over the names.
unfoldable pub build_children :
    (Components → Option Node) → PendingEntries → Components → List (List ℕ) → Option Entries
build_children build entries prefix [] = some nil
build_children build entries prefix (name ∷ names) =
    let path = prefix ++ name ∷ [] in
    push_entry name (child_node build path (get entries path))
      (build_children build entries prefix names)

abbrev pub as_directory : Option Entries → Option Node
as_directory none = none
as_directory (some entries) = some (directory_node entries)

unfoldable pub build_directory : ℕ → PendingEntries → Components → Option Node
build_directory zero entries prefix = none
build_directory (suc fuel) entries prefix =
    as_directory
      (build_children (build_directory fuel entries) entries prefix (child_names entries prefix))

unfoldable pub longest : PendingEntries → ℕ
longest [] = 0
longest ((path, entry) ∷ entries) =
    let rest = longest entries in if ltb rest (length path) then length path else rest

unfoldable pub build_tree : PendingEntries → Option Node
build_tree entries = build_directory (suc (longest entries)) entries []

pub data EntryType : Type 0 where
  regular dir link hard block_special character_special pipe : EntryType
  any_other : ℕ → EntryType

-- What the tar crate says of an entry.
pub record TarEntry : Type 0 where
  pub entry_type : EntryType
  pub path_bytes : List ℕ
  pub mode : Result Error ℕ
  pub bytes : Result Error (List ℕ)
  pub link_name : Option (List ℕ)

abbrev pub classify_other : ℕ → TarEntryKind
classify_other byte = if byte == b's' then TarEntryKind.socket else TarEntryKind.other

-- The match of the loop.
unfoldable pub pending_of : (List ℕ → List ℕ) → TarEntry → Result Error PendingEntry
pending_of sha256 entry = elim entry.entry_type [
  | regular ↦ entry.mode >>= λ mode. entry.bytes >>= λ bytes. ok (
      file (record {
        executable = not (bit_and mode 0o111 == 0);
        content_hash = sha256 bytes;
        size = length bytes;
      }))
  | dir ↦ ok directory
  | link ↦ elim entry.link_name [
    | none ↦ err (unsupported_tar_entry TarEntryKind.other)
    | some target ↦ ok (symlink target)
  ]
  | hard ↦ err (unsupported_tar_entry TarEntryKind.hard_link)
  | block_special ↦ err (unsupported_tar_entry TarEntryKind.block_device)
  | character_special ↦ err (unsupported_tar_entry TarEntryKind.char_device)
  | pipe ↦ err (unsupported_tar_entry TarEntryKind.fifo)
  | any_other byte ↦ err (unsupported_tar_entry (classify_other byte))
]

-- The loop.
unfoldable pub load_entries :
    (List ℕ → List ℕ) → List (Result Error TarEntry) → PendingEntries → Result Error PendingEntries
load_entries sha256 [] entries = ok entries
load_entries sha256 (next ∷ rest) entries = next >>= λ entry.
    normalize_archive_path entry.path_bytes >>= λ path. pending_of sha256 entry >>= λ pending.
    insert_entry path pending entries >>= λ entries. load_entries sha256 rest entries

unfoldable pub load_tar_reader :
    (List ℕ → List ℕ) → List (Result Error TarEntry) → Result Error (Option Node)
load_tar_reader sha256 archive =
    load_entries sha256 archive [] >>= λ entries. ok (build_tree entries)
