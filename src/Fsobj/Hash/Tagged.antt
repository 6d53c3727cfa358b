-- ===== src/Fsobj/Hash/Tagged.antt =====
-- The hashes of the code against the layouts, and the files whose contents are such a layout.
use bobr.Base.{ℕ, ◌≡◌, ◌⊎◌, refl, sym, ap, ◌∙◌, false, List, [], ◌∷◌, ◌++◌, length}
use bobr.Fsobj.Hash.{
  DirectoryHashEntry, summary_kind_byte, summary_bytes, hash_entries_bytes, hash_directory_entries,
  EntryKind, Node, file_node, directory_node, symlink_node, Entries, nil, cons, kind, dir_tag,
  file_tag, file_bytes, hash_file, symlink_bytes, symlink_tag, hash_symlink, entry_bytes, hash_node,
  entries_bytes,
}
use bobr.Fsobj.Hash.Layout.{
  big_endian_u64, to_be_bytes-big_endian_u64, letter, entry_layout, entries_layout,
  directory_layout, summary, summaries, HasTag, tagged_layout,
}
use bobr.Fsobj.Hash.Reduction.{Collision, same_or_Collision}

entry_bytes-summary :
    (sha256 : List ℕ → List ℕ) (name : List ℕ) (node : Node)
    → entry_bytes (kind node) name (hash_node sha256 node) ≡ entry_layout (summary sha256 name node)
unfolding entry_bytes kind
entry_bytes-summary sha256 name (file_node f) =
    ap (λ size. b'f' ∷ (size ++ (name ++ hash_node sha256 (file_node f))))
      (to_be_bytes-big_endian_u64 (length name))
entry_bytes-summary sha256 name (directory_node es) =
    ap (λ size. b'd' ∷ (size ++ (name ++ hash_node sha256 (directory_node es))))
      (to_be_bytes-big_endian_u64 (length name))
entry_bytes-summary sha256 name (symlink_node target) =
    ap (λ size. b'l' ∷ (size ++ (name ++ hash_node sha256 (symlink_node target))))
      (to_be_bytes-big_endian_u64 (length name))

entries_bytes-entries_layout :
    (sha256 : List ℕ → List ℕ) (es : Entries)
    → entries_bytes sha256 es ≡ entries_layout (summaries sha256 es)
unfolding entries_bytes
entries_bytes-entries_layout sha256 nil = refl
entries_bytes-entries_layout sha256 (cons name node es) =
    ap (λ bytes. bytes ++ entries_bytes sha256 es) (entry_bytes-summary sha256 name node)
    ∙ ap (λ bytes. entry_layout (summary sha256 name node) ++ bytes)
        (entries_bytes-entries_layout sha256 es)

summary_bytes-entry_layout : (e : DirectoryHashEntry) → summary_bytes e ≡ entry_layout e
unfolding summary_bytes
summary_bytes-entry_layout e =
    ap (λ size. summary_kind_byte e.entry_kind ∷ (size ++ (e.name ++ e.hash)))
      (to_be_bytes-big_endian_u64 (length e.name))
    ∙ ap (λ l. l ++ (big_endian_u64 (length e.name) ++ (e.name ++ e.hash)))
        (same_letter e.entry_kind)
  where
    same_letter : (k : EntryKind) → summary_kind_byte k ∷ [] ≡ letter k
    same_letter EntryKind.file = refl
    same_letter EntryKind.directory = refl
    same_letter EntryKind.symlink = refl

hash_entries_bytes-entries_layout :
    (es : List DirectoryHashEntry) → hash_entries_bytes es ≡ entries_layout es
unfolding hash_entries_bytes
hash_entries_bytes-entries_layout [] = refl
hash_entries_bytes-entries_layout (e ∷ es) =
    ap (λ bytes. bytes ++ hash_entries_bytes es) (summary_bytes-entry_layout e)
    ∙ ap (λ bytes. entry_layout e ++ bytes) (hash_entries_bytes-entries_layout es)

hash_directory-directory_layout :
    (sha256 : List ℕ → List ℕ) (es : Entries)
    → hash_node sha256 (directory_node es) ≡ sha256 (directory_layout (summaries sha256 es))
unfolding hash_node
hash_directory-directory_layout sha256 es =
    ap (λ bytes. sha256 (dir_tag ++ bytes)) (entries_bytes-entries_layout sha256 es)

hash_directory_entries-directory_layout :
    (sha256 : List ℕ → List ℕ) (es : List DirectoryHashEntry)
    → hash_directory_entries sha256 es ≡ sha256 (directory_layout es)
unfolding hash_directory_entries
hash_directory_entries-directory_layout sha256 es =
    ap (λ bytes. sha256 (dir_tag ++ bytes)) (hash_entries_bytes-entries_layout es)

-- hash_directory_entries, given the kind, the name and the hash of each entry of a directory in
-- their order, returns what hash_node returns for the directory, and both are the digest of the
-- directory layout: the tag and a zero byte, then for each entry the letter of its kind, the
-- length of its name as eight bytes with the highest first, its name and its hash.
pub hash_directory_entries-hash_node :
    (sha256 : List ℕ → List ℕ) (es : Entries)
    → (hash_directory_entries sha256 (summaries sha256 es) ≡ hash_node sha256 (directory_node es))
      × (hash_node sha256 (directory_node es) ≡ sha256 (directory_layout (summaries sha256 es)))
hash_directory_entries-hash_node sha256 es =
    let node = hash_directory-directory_layout sha256 es in
    (hash_directory_entries-directory_layout sha256 (summaries sha256 es) ∙ sym node, node)

hash_node-tagged_layout :
    (sha256 : List ℕ → List ℕ) (n : Node)
    → HasTag n
    → hash_node sha256 n ≡ sha256 (tagged_layout sha256 n)
unfolding hash_node hash_file hash_symlink file_bytes symlink_bytes
hash_node-tagged_layout sha256 (directory_node es) tag = hash_directory-directory_layout sha256 es
hash_node-tagged_layout sha256 (symlink_node target) tag =
    ap (λ size. sha256 (symlink_tag ++ (size ++ target)))
      (to_be_bytes-big_endian_u64 (length target))
hash_node-tagged_layout sha256 (file_node f) tag = rw tag (
    ap (λ size. sha256 (file_tag ++ (1 ∷ (size ++ f.content_hash))))
      (to_be_bytes-big_endian_u64 f.size))

-- The node of a file that is not executable.
abbrev pub plain_file : (List ℕ → List ℕ) → List ℕ → Node
plain_file sha256 content =
    file_node (record { executable = false; content_hash = sha256 content; size = length content })

hash_plain_file :
    (sha256 : List ℕ → List ℕ) (content : List ℕ)
    → hash_node sha256 (plain_file sha256 content) ≡ sha256 content
unfolding hash_node hash_file
hash_plain_file sha256 content = refl

-- For a directory, a symbolic link or an executable file, and any contents: a file that is not
-- executable and has the node's tagged layout as its contents (the tag and a zero byte, then the
-- fields, each number as eight bytes with the highest first) has the hash of the node;
-- conversely, if a file that is not executable has that hash, then its contents are that layout
-- or two different byte strings with the same digest are found.
pub hash_node-plain_file :
    (sha256 : List ℕ → List ℕ) (n : Node)
    → HasTag n
    → (content : List ℕ)
    → (content ≡ tagged_layout sha256 n
        → hash_node sha256 (plain_file sha256 content) ≡ hash_node sha256 n)
      × (hash_node sha256 (plain_file sha256 content) ≡ hash_node sha256 n
          → (content ≡ tagged_layout sha256 n) ⊎ Collision sha256)
hash_node-plain_file sha256 n tag content =
    let node = hash_node-tagged_layout sha256 n tag in
    let file = hash_plain_file sha256 content in
    (
      λ same. file ∙ ap sha256 same ∙ sym node,
      λ e. same_or_Collision sha256 content (tagged_layout sha256 n) (sym file ∙ e ∙ node),
    )
