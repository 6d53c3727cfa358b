-- ===== src/Fsobj/Hash.antt =====
-- fsobj-hash/src/node.rs and fsobj-hash/src/hash.rs. SHA-256 is a parameter, the digest of all bytes
-- given to `update` one after another.
pub mod Cancel
pub mod Reduction
pub mod Layout
pub mod Tagged
mod Tests
use bobr.Base.{ℕ, Bool, true, false, List, [], ◌∷◌, ◌++◌, length}
use bobr.Base.Bytes.{to_be_bytes}
use bobr.Base.Text.{codes}

pub data EntryKind : Type 0 where
  file directory symlink : EntryKind

pub record FileNode : Type 0 where
  pub executable : Bool
  pub content_hash : List ℕ
  pub size : ℕ

-- `Node`, and the entries of a `DirectoryNode` with their names.
mutual
  pub data Node : Type 0 where
    file_node : FileNode → Node
    directory_node : Entries → Node
    symlink_node : List ℕ → Node

  pub data Entries : Type 0 where
    nil : Entries
    cons : List ℕ → Node → Entries → Entries

-- `Node::kind`.
unfoldable pub kind : Node → EntryKind
kind (file_node f) = EntryKind.file
kind (directory_node es) = EntryKind.directory
kind (symlink_node target) = EntryKind.symlink

abbrev pub file_tag : List ℕ
file_tag = codes "fsobj:file:v1" ++ 0 ∷ []

abbrev pub dir_tag : List ℕ
dir_tag = codes "fsobj:dir:v1" ++ 0 ∷ []

abbrev pub symlink_tag : List ℕ
symlink_tag = codes "fsobj:symlink:v1" ++ 0 ∷ []

abbrev pub kind_byte : EntryKind → ℕ
kind_byte EntryKind.file = b'f'
kind_byte EntryKind.directory = b'd'
kind_byte EntryKind.symlink = b'l'

abbrev pub bool_byte : Bool → ℕ
bool_byte true = 1
bool_byte false = 0

-- What `hash_file` gives the hasher for an executable file.
unfoldable pub file_bytes : FileNode → List ℕ
file_bytes f = file_tag ++ (bool_byte f.executable ∷ (to_be_bytes 8 f.size ++ f.content_hash))

unfoldable pub hash_file : (List ℕ → List ℕ) → FileNode → List ℕ
hash_file sha256 f = elim f.executable [ false ↦ f.content_hash | true ↦ sha256 (file_bytes f) ]

unfoldable pub symlink_bytes : List ℕ → List ℕ
symlink_bytes target = symlink_tag ++ (to_be_bytes 8 (length target) ++ target)

unfoldable pub hash_symlink : (List ℕ → List ℕ) → List ℕ → List ℕ
hash_symlink sha256 target = sha256 (symlink_bytes target)

-- What `hash_directory_entry` gives the hasher, for the hash of the node.
unfoldable pub entry_bytes : EntryKind → List ℕ → List ℕ → List ℕ
entry_bytes k name hash = kind_byte k ∷ (to_be_bytes 8 (length name) ++ (name ++ hash))

unfoldable mutual
  unfolding kind

  pub hash_node : (List ℕ → List ℕ) → Node → List ℕ
  hash_node sha256 (file_node f) = hash_file sha256 f
  hash_node sha256 (directory_node es) = sha256 (dir_tag ++ entries_bytes sha256 es)
  hash_node sha256 (symlink_node target) = hash_symlink sha256 target

  -- The loop of `hash_directory`.
  pub entries_bytes : (List ℕ → List ℕ) → Entries → List ℕ
  entries_bytes sha256 nil = []
  entries_bytes sha256 (cons name node es) =
      entry_bytes (kind node) name (hash_node sha256 node) ++ entries_bytes sha256 es

-- What `hash_directory_entries` takes: a kind, a name and a hash that is there already.
pub record DirectoryHashEntry : Type 0 where
  pub entry_kind : EntryKind
  pub name : List ℕ
  pub hash : List ℕ

-- The match on the kind in the loop of `hash_directory_entries`.
abbrev pub summary_kind_byte : EntryKind → ℕ
summary_kind_byte EntryKind.file = b'f'
summary_kind_byte EntryKind.directory = b'd'
summary_kind_byte EntryKind.symlink = b'l'

-- What one round of that loop gives the hasher.
unfoldable pub summary_bytes : DirectoryHashEntry → List ℕ
summary_bytes e =
    summary_kind_byte e.entry_kind ∷ (to_be_bytes 8 (length e.name) ++ (e.name ++ e.hash))

unfoldable pub hash_entries_bytes : List DirectoryHashEntry → List ℕ
hash_entries_bytes [] = []
hash_entries_bytes (e ∷ es) = summary_bytes e ++ hash_entries_bytes es

unfoldable pub hash_directory_entries : (List ℕ → List ℕ) → List DirectoryHashEntry → List ℕ
hash_directory_entries sha256 es = sha256 (dir_tag ++ hash_entries_bytes es)
