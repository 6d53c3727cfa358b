-- ===== src/Fsobj/Archive/Tests.antt =====
-- Tests of the archive code: an archive with a directory, a program in it and a link.
use bobr.Base.{
  ℕ, ◌≡◌, refl, true, Option, none, some, List, [], ◌∷◌, length, bytes_eq, Result, ok, err,
}
use bobr.Base.Order.{cmp}
use bobr.Repo.Tar.{split_slash}
use bobr.Base.Text.{codes}
use bobr.Fsobj.Hash.{EntryKind, FileNode, Node, file_node, directory_node, symlink_node, nil, cons}
use bobr.Fsobj.Archive.{
  Error, Components, PendingEntry, PendingEntries, directory, symlink, get, insert_entry,
  insert_implicit_parents, insert_pending, normalize_archive_path, plain_components, kind_conflict,
  components_eq,
}
use bobr.Fsobj.Archive.Paths.{IsArchivePath, join, normalize_archive_path-IsArchivePath}
use bobr.Fsobj.Archive.Insert.{IsClosed, HaveParents, Keeps, insert_entry-IsClosed}
use bobr.Fsobj.Archive.Tree.{
  EntryType, TarEntry, load_entries, load_tar_reader, build_tree, build_directory, pending_of,
  longest, child_names, child_name, insert_name, build_children,
}
use bobr.Fsobj.Archive.Tree.Total.{build_tree_total}
use bobr.Fsobj.Archive.Tree.Children.{view, lookup}
use bobr.Fsobj.Archive.Tree.Lookup.{load_tar_reader-lookup}

abbrev sha256 : List ℕ → List ℕ
sha256 bytes = length bytes ∷ []

abbrev bin : List ℕ
bin = codes "bin"

abbrev run : List ℕ
run = codes "run"

abbrev program : TarEntry
program = record {
  entry_type = EntryType.regular;
  path_bytes = codes "./bin//run";
  mode = ok 0o755;
  bytes = ok (codes "hello");
  link_name = none;
}

abbrev shortcut : TarEntry
shortcut = record {
  entry_type = EntryType.link;
  path_bytes = codes "a";
  mode = ok 0o777;
  bytes = ok [];
  link_name = some (codes "bin/run");
}

abbrev archive : List (Result Error TarEntry)
archive = ok program ∷ ok shortcut ∷ []

abbrev program_node : FileNode
program_node = record { executable = true; content_hash = 5 ∷ []; size = 5 }

abbrev root : Node
root = directory_node (
    cons (codes "a") (symlink_node (codes "bin/run"))
      (cons bin (directory_node (cons run (file_node program_node) nil)) nil))

loaded : load_tar_reader sha256 archive ≡ ok (some root)
unfolding load_tar_reader load_entries normalize_archive_path plain_components pending_of
    insert_entry insert_implicit_parents insert_pending get build_tree build_directory longest
    child_names child_name insert_name build_children split_slash bytes_eq components_eq cmp
loaded = refl

-- A file where a directory is.
conflict :
    insert_entry (bin ∷ []) (PendingEntry.file program_node) ((bin ∷ [], directory) ∷ [])
    ≡ err (kind_conflict EntryKind.directory EntryKind.file)
unfolding insert_entry insert_implicit_parents insert_pending get components_eq bytes_eq
conflict = refl

normalized : normalize_archive_path (codes "./bin//run") ≡ ok (bin ∷ run ∷ [])
unfolding normalize_archive_path plain_components split_slash bytes_eq
normalized = refl

inserted :
    insert_entry (bin ∷ run ∷ []) (symlink bin) []
    ≡ ok ((bin ∷ run ∷ [], symlink bin) ∷ (bin ∷ [], directory) ∷ [])
unfolding insert_entry insert_implicit_parents insert_pending get components_eq bytes_eq
inserted = refl

empty-IsClosed : IsClosed []
unfolding get
empty-IsClosed path entry e = absurd (cc e)

normalize_archive_path-IsArchivePath_example :
    IsArchivePath (bin ∷ run ∷ [])
    × (normalize_archive_path (join (bin ∷ run ∷ [])) ≡ ok (bin ∷ run ∷ []))
normalize_archive_path-IsArchivePath_example =
    normalize_archive_path-IsArchivePath (codes "./bin//run") (bin ∷ run ∷ []) normalized

insert_entry-IsClosed_example :
    IsClosed ((bin ∷ run ∷ [], symlink bin) ∷ (bin ∷ [], directory) ∷ [])
    × (get ((bin ∷ run ∷ [], symlink bin) ∷ (bin ∷ [], directory) ∷ []) (bin ∷ run ∷ [])
        ≡ some (symlink bin))
    × HaveParents ((bin ∷ run ∷ [], symlink bin) ∷ (bin ∷ [], directory) ∷ []) [] (bin ∷ run ∷ [])
    × Keeps [] ((bin ∷ run ∷ [], symlink bin) ∷ (bin ∷ [], directory) ∷ [])
insert_entry-IsClosed_example =
    insert_entry-IsClosed [] ((bin ∷ run ∷ [], symlink bin) ∷ (bin ∷ [], directory) ∷ []) bin
      (run ∷ []) (symlink bin) empty-IsClosed inserted

build_tree_total_example :
    (n : Node) × (build_tree ((bin ∷ run ∷ [], symlink bin) ∷ (bin ∷ [], directory) ∷ []) ≡ some n)
build_tree_total_example =
    build_tree_total ((bin ∷ run ∷ [], symlink bin) ∷ (bin ∷ [], directory) ∷ [])

load_tar_reader-lookup_example :
    (entries : PendingEntries) × (node : Node) × (load_entries sha256 archive [] ≡ ok entries)
    × (◌≡◌ {A = Option Node} (some root) (some node))
    × ((c : List ℕ) (cs : Components) → view (lookup node (c ∷ cs)) ≡ get entries (c ∷ cs))
load_tar_reader-lookup_example = load_tar_reader-lookup sha256 archive (some root) loaded
