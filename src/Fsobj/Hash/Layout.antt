-- ===== src/Fsobj/Hash/Layout.antt =====
-- The bytes of a directory, a link and an executable file as the format has them, apart from the
-- encoders of hash.rs: the tag, then each number as eight bytes with the highest first. Only the hashes
-- of a directory's entries are those of `hash_node`.
use bobr.Base.{ℕ, ◌/◌, ◌%◌, ◌^◌, ◌≡◌, true, List, [], ◌∷◌, ◌++◌, length, arith}
use bobr.Base.Bytes.{to_be_bytes}
use bobr.Base.Text.{codes}
use bobr.Fsobj.Hash.{
  EntryKind, FileNode, Node, file_node, directory_node, symlink_node, Entries, nil, cons,
  DirectoryHashEntry, hash_node,
}

abbrev pub big_endian_u64 : ℕ → List ℕ
big_endian_u64 n =
    (n / 2 ^ 56 % 256)
    ∷ (n / 2 ^ 48 % 256)
    ∷ (n / 2 ^ 40 % 256)
    ∷ (n / 2 ^ 32 % 256)
    ∷ (n / 2 ^ 24 % 256)
    ∷ (n / 2 ^ 16 % 256)
    ∷ (n / 2 ^ 8 % 256)
    ∷ (n % 256)
    ∷ []

pub to_be_bytes-big_endian_u64 : (n : ℕ) → to_be_bytes 8 n ≡ big_endian_u64 n
unfolding to_be_bytes
to_be_bytes-big_endian_u64 n =
    let b1 : n / 256 % 256 ≡ n / 2 ^ 8 % 256 = omega arith in
    let b2 : n / 256 / 256 % 256 ≡ n / 2 ^ 16 % 256 = omega arith in
    let b3 : n / 256 / 256 / 256 % 256 ≡ n / 2 ^ 24 % 256 = omega arith in
    let b4 : n / 256 / 256 / 256 / 256 % 256 ≡ n / 2 ^ 32 % 256 = omega arith in
    let b5 : n / 256 / 256 / 256 / 256 / 256 % 256 ≡ n / 2 ^ 40 % 256 = omega arith in
    let b6 : n / 256 / 256 / 256 / 256 / 256 / 256 % 256 ≡ n / 2 ^ 48 % 256 = omega arith in
    let b7 : n / 256 / 256 / 256 / 256 / 256 / 256 / 256 % 256 ≡ n / 2 ^ 56 % 256 = omega arith in
    cc (b1, b2, b3, b4, b5, b6, b7)

-- The letter of a kind.
abbrev pub letter : EntryKind → List ℕ
letter EntryKind.file = codes "f"
letter EntryKind.directory = codes "d"
letter EntryKind.symlink = codes "l"

abbrev pub entry_layout : DirectoryHashEntry → List ℕ
entry_layout e = letter e.entry_kind ++ (big_endian_u64 (length e.name) ++ (e.name ++ e.hash))

abbrev pub entries_layout : List DirectoryHashEntry → List ℕ
entries_layout [] = []
entries_layout (e ∷ es) = entry_layout e ++ entries_layout es

abbrev pub directory_layout : List DirectoryHashEntry → List ℕ
directory_layout es = codes "fsobj:dir:v1" ++ (0 ∷ entries_layout es)

abbrev pub symlink_layout : List ℕ → List ℕ
symlink_layout target = codes "fsobj:symlink:v1" ++ (0 ∷ (big_endian_u64 (length target) ++ target))

abbrev pub executable_layout : FileNode → List ℕ
executable_layout f = codes "fsobj:file:v1" ++ (0 ∷ 1 ∷ (big_endian_u64 f.size ++ f.content_hash))

-- The kind, the name and the hash of each entry of a directory.
abbrev pub summary : (List ℕ → List ℕ) → List ℕ → Node → DirectoryHashEntry
summary sha256 name (file_node f) = record {
  entry_kind = EntryKind.file;
  name = name;
  hash = hash_node sha256 (file_node f);
}
summary sha256 name (directory_node es) = record {
  entry_kind = EntryKind.directory;
  name = name;
  hash = hash_node sha256 (directory_node es);
}
summary sha256 name (symlink_node target) = record {
  entry_kind = EntryKind.symlink;
  name = name;
  hash = hash_node sha256 (symlink_node target);
}

abbrev pub summaries : (List ℕ → List ℕ) → Entries → List DirectoryHashEntry
summaries sha256 nil = []
summaries sha256 (cons name node es) = summary sha256 name node ∷ summaries sha256 es

-- A node whose hash is of tagged bytes: every one but a file that is not executable.
abbrev pub HasTag : Node → Type 0
HasTag (file_node f) = f.executable ≡ true
HasTag (directory_node es) = Unit
HasTag (symlink_node target) = Unit

abbrev pub tagged_layout : (List ℕ → List ℕ) → Node → List ℕ
tagged_layout sha256 (file_node f) = executable_layout f
tagged_layout sha256 (directory_node es) = directory_layout (summaries sha256 es)
tagged_layout sha256 (symlink_node target) = symlink_layout target
