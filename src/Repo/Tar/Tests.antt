-- ===== src/Repo/Tar/Tests.antt =====
-- Runs of the modelled code on small inputs, and the theorems at such inputs.
use bobr.Base.{
  Result, ℕ, zero, suc, ◌^◌, ◌≤◌, ◌≡◌, refl, true, false, some, List, [], ◌∷◌, ◌++◌, length, ok,
  err, arith, bytes_eq,
}
use bobr.Base.Text.{codes}
use bobr.Repo.Error.{RepositoryError, tar_parent_component, tar_non_directory_parent}
use bobr.Repo.Tar.{
  parse_size, write_size, ustar_path_fields, last_split, header_path, normalize_path,
  normalize_components, split_slash, trim_slashes,
}
use bobr.Repo.Tar.Nodes.{
  directory, file, symlink, Nodes, get, all_but_last, insert_parents, insert_path,
}
use bobr.Repo.Tar.Nodes.Parents.{Keeps, AreDirectories, insert_path-AreDirectories}
use bobr.Repo.Tar.Reader.{
  Reader, read_exact, add_decoded, padding_loop, read_padding, read_entry_bytes, copy_exact,
  copy_entry_bytes,
}
use bobr.Repo.Tar.Reader.Blocks.{IsEntry, read_entry_bytes-IsEntry}
use bobr.Repo.Tar.Size.{parse_size-write_size}
use bobr.Repo.Tar.Path.{header_path-ustar_path_fields}
use bobr.Repo.Tar.Normalize.{IsNormalized, normalize_path-IsNormalized, normalize_path_idem}

parse_size-write_size_example :
    (field : List ℕ) × (write_size 12 (2 ^ 40) ≡ ok field)
    × (length field ≡ 12)
    × (parse_size field ≡ some (ok (2 ^ 40)))
parse_size-write_size_example = parse_size-write_size (2 ^ 40) (omega arith)

-- A path of 103 bytes: two components of 51 bytes.
abbrev letters : ℕ → List ℕ
letters zero = []
letters (suc n) = b'a' ∷ letters n

abbrev long_path : List ℕ
long_path = letters 51 ++ b'/' ∷ letters 51

long_path-fields : ustar_path_fields long_path ≡ some (letters 51, letters 51)
unfolding ustar_path_fields last_split
long_path-fields = refl

header_path-ustar_path_fields_example :
    (header_path (letters 51) (letters 51) ≡ long_path)
    × (length (letters 51) ≤ 100)
    × (length (letters 51) ≤ 155)
header_path-ustar_path_fields_example =
    header_path-ustar_path_fields long_path (letters 51) (letters 51) refl long_path-fields

parent_component : normalize_path (codes "a/../b") false ≡ err tar_parent_component
unfolding normalize_path normalize_components split_slash bytes_eq
parent_component = refl

dotted_path : normalize_path (codes "./a//b/") true ≡ ok (codes "a/b")
unfolding normalize_path normalize_components split_slash trim_slashes bytes_eq
dotted_path = refl

normalize_path-IsNormalized_example : IsNormalized (codes "a/b")
normalize_path-IsNormalized_example =
    normalize_path-IsNormalized (codes "./a//b/") (codes "a/b") true dotted_path

normalize_path_idem_example : normalize_path (codes "a/b") false ≡ ok (codes "a/b")
normalize_path_idem_example =
    normalize_path_idem (codes "./a//b/") (codes "a/b") true false dotted_path

-- The file system is the list of the directories made.
abbrev make_directory : List ℕ → List (List ℕ) → Result RepositoryError (List (List ℕ))
make_directory path made = ok (path ∷ made)

abbrev one_file : Nodes
one_file = (codes "a/b", file) ∷ (codes "a", directory) ∷ []

one_file-insert :
    insert_path make_directory [] [] (codes "a/b") file ≡ ok (one_file, codes "a" ∷ [])
unfolding insert_path insert_parents get split_slash bytes_eq
one_file-insert = refl

-- A path through a symbolic link is refused.
through_symlink :
    insert_path make_directory ((codes "a", symlink) ∷ []) [] (codes "a/b") file
    ≡ err tar_non_directory_parent
unfolding insert_path insert_parents get split_slash bytes_eq
through_symlink = refl

insert_path-AreDirectories_example :
    (get one_file (codes "a/b") ≡ some file)
    × AreDirectories one_file [] (all_but_last (split_slash (codes "a/b")))
    × Keeps [] one_file
insert_path-AreDirectories_example =
    insert_path-AreDirectories make_directory [] [] (codes "a/b") file (one_file, codes "a" ∷ [])
      one_file-insert

-- Three bytes of data, their padding and one byte behind it.
abbrev nuls : ℕ → List ℕ
nuls zero = []
nuls (suc n) = 0 ∷ nuls n

abbrev entry_start : Reader
entry_start = record { input = 1 ∷ 2 ∷ 3 ∷ (nuls 509 ++ (7 ∷ [])); decoded = 512 }

abbrev entry_end : Reader
entry_end = record { input = 7 ∷ []; decoded = 1024 }

entry-read : read_entry_bytes 3 100 entry_start ≡ ok (1 ∷ 2 ∷ 3 ∷ [], entry_end)
unfolding read_entry_bytes read_exact read_padding padding_loop add_decoded
entry-read = refl

read_entry_bytes-IsEntry_example : (3 ≤ 100) × IsEntry 3 (1 ∷ 2 ∷ 3 ∷ []) entry_start entry_end
read_entry_bytes-IsEntry_example =
    read_entry_bytes-IsEntry 3 100 entry_start entry_end (1 ∷ 2 ∷ 3 ∷ []) entry-read

entry-copy : copy_entry_bytes 3 entry_start ≡ ok (1 ∷ 2 ∷ 3 ∷ [], entry_end)
unfolding copy_entry_bytes copy_exact read_exact read_padding padding_loop add_decoded
entry-copy = refl
