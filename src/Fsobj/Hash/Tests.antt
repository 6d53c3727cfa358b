-- ===== src/Fsobj/Hash/Tests.antt =====
-- The theorems at small trees, with a digest that keeps the last 32 bytes.
use bobr.Base.{ℕ, ◌≡◌, ◌⊎◌, refl, true, List, arith}
use bobr.Base.Bytes.{to_be_bytes, from_be_bytes, length-to_be_bytes}
use bobr.Base.Text.{codes}
use bobr.Fsobj.Hash.{
  Node, file_node, directory_node, symlink_node, Entries, nil, cons, hash_node,
  hash_directory_entries,
}
use bobr.Fsobj.Hash.Layout.{summaries, HasTag, directory_layout, tagged_layout}
use bobr.Fsobj.Hash.Reduction.{Collision, IsNode, hash_node-Collision}
use bobr.Fsobj.Hash.Tagged.{plain_file, hash_node-plain_file, hash_directory_entries-hash_node}

abbrev last_bytes : List ℕ → List ℕ
last_bytes x = to_be_bytes 32 (from_be_bytes x)

-- A directory with an executable file `a`, and one with a symbolic link `a`.
abbrev with_file : Node
with_file = directory_node (
    cons (codes "a")
      (file_node (record { executable = true; content_hash = last_bytes (codes "x"); size = 1 }))
      nil)

abbrev with_link : Node
with_link = directory_node (cons (codes "a") (symlink_node (codes "x")) nil)

with_file-IsNode : IsNode last_bytes with_file
unfolding IsNode
with_file-IsNode = (
  omega arith,
  record {
    content = codes "x";
    hash = refl;
    size = refl;
    small = omega arith;
    untagged = λ e. absurd (cc e);
  },
  tt,
)

hash_node-Collision_example : (with_file ≡ with_file) ⊎ Collision last_bytes
hash_node-Collision_example =
    hash_node-Collision last_bytes (λ x. length-to_be_bytes 32 (from_be_bytes x)) with_file
      with_file with_file-IsNode with_file-IsNode refl

-- The bytes of `with_link`, as the contents of a file.
abbrev link_bytes : List ℕ
link_bytes = tagged_layout last_bytes with_link

with_link-HasTag : HasTag with_link
with_link-HasTag = tt

hash_node-plain_file_example :
    (link_bytes ≡ tagged_layout last_bytes with_link
      → hash_node last_bytes (plain_file last_bytes link_bytes) ≡ hash_node last_bytes with_link)
    × (hash_node last_bytes (plain_file last_bytes link_bytes) ≡ hash_node last_bytes with_link
        → (link_bytes ≡ tagged_layout last_bytes with_link) ⊎ Collision last_bytes)
hash_node-plain_file_example = hash_node-plain_file last_bytes with_link with_link-HasTag link_bytes

abbrev link_entries : Entries
link_entries = cons (codes "a") (symlink_node (codes "x")) nil

hash_directory_entries-hash_node_example :
    (hash_directory_entries last_bytes (summaries last_bytes link_entries)
      ≡ hash_node last_bytes (directory_node link_entries))
    × (hash_node last_bytes (directory_node link_entries)
        ≡ last_bytes (directory_layout (summaries last_bytes link_entries)))
hash_directory_entries-hash_node_example = hash_directory_entries-hash_node last_bytes link_entries
