-- ===== src/Fsobj/Archive.antt =====
-- fsobj-hash/src/normalize.rs: paths of archive entries, the entries so far, and the tree that they
-- make. A `BTreeMap` is an association list in which a key stands once; the code never enumerates
-- it but through sorted names.
pub mod Paths
pub mod Insert
pub mod Tree
mod Tests
use bobr.Base.{
  ℕ, zero, suc, ◌&&◌, ◌||◌, Bool, true, false, not, Option, none, some, List, [], ◌∷◌, ◌++◌, length,
  if◌then◌else◌, bytes_eq, ◌==◌, Result, ok, err, ◌>>=◌,
}
use bobr.Base.Order.{cmp, is_lt}
use bobr.Repo.Tar.{split_slash, is_empty, starts_with_slash}
use bobr.Fsobj.Hash.{
  EntryKind, FileNode, Node, file_node, directory_node, symlink_node, Entries, nil, cons,
}

pub data InvalidPathReason : Type 0 where
  empty_path absolute_path parent_traversal : InvalidPathReason

pub data TarEntryKind : Type 0 where
  hard_link block_device char_device fifo socket other : TarEntryKind

-- The errors of the archive code, without the paths for the message; `tar_read` is every error of
-- the tar crate.
pub data Error : Type 0 where
  tar_read : Error
  unsupported_tar_entry : TarEntryKind → Error
  invalid_archive_path : InvalidPathReason → Error
  duplicate_entry : Error
  kind_conflict : EntryKind → EntryKind → Error

abbrev pub Components : Type 0
Components = List (List ℕ)

pub data PendingEntry : Type 0 where
  file : FileNode → PendingEntry
  directory : PendingEntry
  symlink : List ℕ → PendingEntry

abbrev pub pending_kind : PendingEntry → EntryKind
pending_kind (file f) = EntryKind.file
pending_kind directory = EntryKind.directory
pending_kind (symlink t) = EntryKind.symlink

-- `raw.strip_prefix(b"./")`, or `raw`.
abbrev pub strip_dot_slash : List ℕ → List ℕ
strip_dot_slash [] = []
strip_dot_slash (a ∷ []) = a ∷ []
strip_dot_slash (a ∷ b ∷ raw) = if a == b'.' && b == b'/' then raw else a ∷ b ∷ raw

-- The loop over the components.
unfoldable pub plain_components : List (List ℕ) → Result Error Components
plain_components [] = ok []
plain_components (c ∷ cs) =
    let rest = plain_components cs in
    if is_empty c || bytes_eq c (b'.' ∷ [])
    then rest
    else if bytes_eq c (b'.' ∷ b'.' ∷ [])
    then err (invalid_archive_path parent_traversal)
    else (rest >>= λ components. ok (c ∷ components))

abbrev pub is_nil : Components → Bool
is_nil [] = true
is_nil (c ∷ cs) = false

unfoldable pub normalize_archive_path : List ℕ → Result Error Components
normalize_archive_path raw =
    let stripped = strip_dot_slash raw in
    if is_empty stripped
    then err (invalid_archive_path empty_path)
    else if starts_with_slash stripped
    then err (invalid_archive_path absolute_path)
    else (plain_components (split_slash stripped) >>= λ components.
        if is_nil components then err (invalid_archive_path empty_path) else ok components)

-- `Vec<Vec<u8>>` compared.
unfoldable pub components_eq : Components → Components → Bool
components_eq [] [] = true
components_eq [] (d ∷ ds) = false
components_eq (c ∷ cs) [] = false
components_eq (c ∷ cs) (d ∷ ds) = bytes_eq c d && components_eq cs ds

abbrev pub PendingEntries : Type 0
PendingEntries = List (Components × PendingEntry)

unfoldable pub get : PendingEntries → Components → Option PendingEntry
get [] path = none
get ((key, entry) ∷ entries) path =
    let rest = get entries path in if components_eq key path then some entry else rest

-- `insert_implicit_parents`: the loop over the depths, with the parent so far and what is left.
unfoldable pub insert_implicit_parents :
    Components → Components → PendingEntries → Result Error PendingEntries
insert_implicit_parents parent [] entries = ok entries
insert_implicit_parents parent (c ∷ []) entries = ok entries
insert_implicit_parents parent (c ∷ d ∷ cs) entries =
    let path = parent ++ c ∷ [] in
    elim (get entries path) [
      | none ↦ insert_implicit_parents path (d ∷ cs) ((path, directory) ∷ entries)
      | some directory ↦ insert_implicit_parents path (d ∷ cs) entries
      | some (file f) ↦ err (kind_conflict EntryKind.file EntryKind.directory)
      | some (symlink t) ↦ err (kind_conflict EntryKind.symlink EntryKind.directory)
    ]

abbrev pub same_kind : EntryKind → EntryKind → Bool
same_kind EntryKind.file EntryKind.file = true
same_kind EntryKind.directory EntryKind.directory = true
same_kind EntryKind.symlink EntryKind.symlink = true
same_kind k l = false

-- The match of `insert_entry`.
unfoldable pub insert_pending :
    Components → PendingEntry → PendingEntries → Result Error PendingEntries
insert_pending components pending entries = elim (get entries components) [
  | none ↦ ok ((components, pending) ∷ entries)
  | some existing ↦
      if same_kind (pending_kind existing) (pending_kind pending)
      then (if same_kind (pending_kind existing) EntryKind.directory
          then ok entries
          else err duplicate_entry)
      else err (kind_conflict (pending_kind existing) (pending_kind pending))
]

unfoldable pub insert_entry :
    Components → PendingEntry → PendingEntries → Result Error PendingEntries
insert_entry components pending entries =
    insert_implicit_parents [] components entries >>= λ entries.
    insert_pending components pending entries
