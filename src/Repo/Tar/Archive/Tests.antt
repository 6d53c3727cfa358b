-- ===== src/Repo/Tar/Archive/Tests.antt =====
-- An archive of one directory, on a file system that is the list of the paths made.
use bobr.Base.{ℕ, zero, suc, ◌<◌, ◌≡◌, refl, List, [], ◌∷◌, ◌++◌, length, bytes_eq, Result, ok}
use bobr.Base.Text.{codes}
use bobr.Repo.Error.{RepositoryError}
use bobr.Repo.Tar.{
  normalize_path, normalize_components, split_slash, parse_octal, parse_octal_empty, parse_size,
  nul_field, header_path, parse_octal_loop, trim_slashes,
}
use bobr.Repo.Master.{is_some}
use bobr.Repo.Tar.Nodes.{get, insert_parents, insert_path}
use bobr.Repo.Tar.Reader.{
  read_exact, read_block, copy_exact, add_decoded, read_padding, padding_loop, skip_entry_bytes,
}
use bobr.Repo.Tar.Header.{checksum_from, validate_checksum, parse_header}
use bobr.Repo.Tar.Extract.{FsApi, ExtractState, node_kind, check_link, write_node, extract_logical}
use bobr.Repo.Tar.Archive.{
  read_terminator, extract_entry, extract_loop, start_state, extract_directory_tar,
}
use bobr.Repo.Tar.Archive.Whole.{HasEntries, extract_directory_tar-HasEntries}

abbrev paths_made : FsApi (List (List ℕ))
paths_made = record {
  create_dir_all = λ path fs. ok (path ∷ fs);
  create_new = λ path fs. ok (path ∷ fs);
  write = λ path bytes fs. ok fs;
  set_permissions = λ path mode fs. ok fs;
  make_symlink = λ target path fs. ok (path ∷ fs);
}

abbrev zeros : ℕ → List ℕ → List ℕ
zeros zero rest = rest
zeros (suc n) rest = 0 ∷ zeros n rest

-- Name, mode, owner, size, time and checksum; the type; the magic and the device numbers.
abbrev bin_header : List ℕ
bin_header =
    codes "bin/"
    ++ zeros 96 (
        codes "0000755"
        ++ 0 ∷ codes "0000000"
        ++ 0 ∷ codes "0000000"
        ++ 0 ∷ codes "00000000000"
        ++ 0 ∷ codes "00000000000"
        ++ 0 ∷ codes "007755"
        ++ 0
          ∷ b' '
          ∷ b'5'
          ∷ zeros 100 (
              codes "ustar"
              ++ 0 ∷ codes "00"
              ++ zeros 64 (codes "0000000" ++ 0 ∷ codes "0000000" ++ 0 ∷ zeros 167 [])))

abbrev archive : List ℕ
archive = bin_header ++ zeros 1024 []

abbrev done : Result RepositoryError (ℕ × List (List ℕ))
done = ok (1536, codes "bin" ∷ [])

extracted : extract_directory_tar paths_made (λ fs. ok fs) (λ fs. ok fs) archive [] ≡ done
unfolding extract_directory_tar extract_loop read_terminator extract_entry extract_logical
    normalize_path normalize_components split_slash node_kind check_link insert_path insert_parents
    get write_node skip_entry_bytes copy_exact add_decoded read_padding padding_loop read_exact
    read_block checksum_from validate_checksum parse_header parse_octal parse_octal_empty parse_size
    nul_field header_path bytes_eq parse_octal_loop trim_slashes is_some
extracted = refl

extract_directory_tar-HasEntries_example :
    (created : List (List ℕ)) × (st : ExtractState (List (List ℕ))) × (◌≡◌
      {A = Result RepositoryError (List (List ℕ))}
      (ok [])
      (ok created))
    × ((fuel : ℕ)
        → length archive < fuel
        → extract_loop paths_made fuel (start_state paths_made archive created) ≡ ok st)
    × HasEntries st
    × (st.reader.input ≡ [])
    × (1536 ≡ length archive)
    × (◌≡◌ {A = Result RepositoryError (List (List ℕ))} (ok st.fs) (ok (codes "bin" ∷ [])))
extract_directory_tar-HasEntries_example =
    extract_directory_tar-HasEntries paths_made (λ fs. ok fs) (λ fs. ok fs) archive []
      (1536, codes "bin" ∷ []) extracted
