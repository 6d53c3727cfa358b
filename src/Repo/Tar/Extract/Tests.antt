-- ===== src/Repo/Tar/Extract/Tests.antt =====
-- An entry on a file system that is the list of the paths made, and the theorem for it.
use bobr.Base.{ℕ, ◌≡◌, refl, none, List, [], ◌∷◌, ok, bytes_eq}
use bobr.Base.Text.{codes}
use bobr.Repo.Tar.{normalize_path, normalize_components, split_slash}
use bobr.Repo.Tar.Nodes.{file, directory, get, insert_parents, insert_path}
use bobr.Repo.Tar.Reader.{copy_exact, add_decoded, read_padding, padding_loop, copy_entry_bytes}
use bobr.Repo.Tar.Header.{ParsedHeader}
use bobr.Repo.Tar.Extract.{FsApi, ExtractState, node_kind, check_link, write_node, extract_logical}
use bobr.Repo.Tar.Extract.Limits.{IsExtracted, extract_logical-IsExtracted}

abbrev path_list : FsApi (List (List ℕ))
path_list = record {
  create_dir_all = λ path fs. ok (path ∷ fs);
  create_new = λ path fs. ok (path ∷ fs);
  write = λ path bytes fs. ok fs;
  set_permissions = λ path mode fs. ok fs;
  make_symlink = λ target path fs. ok (path ∷ fs);
}

abbrev empty_file : ParsedHeader
empty_file = record { path = codes "a/b"; link = []; mode = 420; size = 0; kind = b'0' }

abbrev nothing : ExtractState (List (List ℕ))
nothing = record {
  nodes = [];
  pending_name = none;
  pending_link = none;
  entries = 0;
  structural_bytes = 0;
  reader = record { input = []; decoded = 512 };
  fs = [];
}

abbrev one_entry : ExtractState (List (List ℕ))
one_entry = record {
  nodes = (codes "a/b", file) ∷ (codes "a", directory) ∷ [];
  pending_name = none;
  pending_link = none;
  entries = 1;
  structural_bytes = 3;
  reader = record { input = []; decoded = 512 };
  fs = codes "a/b" ∷ codes "a" ∷ [];
}

empty_file-extract : extract_logical path_list empty_file nothing ≡ ok one_entry
unfolding extract_logical normalize_path normalize_components split_slash node_kind check_link
    insert_path insert_parents get write_node copy_entry_bytes copy_exact add_decoded read_padding
    padding_loop bytes_eq
empty_file-extract = refl

extract_logical-IsExtracted_example : IsExtracted nothing one_entry
extract_logical-IsExtracted_example =
    extract_logical-IsExtracted path_list empty_file nothing one_entry empty_file-extract
