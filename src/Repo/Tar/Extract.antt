-- ===== src/Repo/Tar/Extract.antt =====
-- bobr-repo/src/tar_profile.rs: the entries of an archive. The file system is a parameter, a state
-- with the calls that the code makes; paths are relative to the destination.
pub mod Limits
mod Tests
use bobr.Base.{
  ℕ, zero, suc, ◌+◌, ◌-◌, ◌*◌, ◌^◌, ◌&&◌, ◌||◌, not, bit_and, Bool, true, false, Option, none, some,
  List, [], ◌∷◌, length, take, all, get_elem?, ltb, leb, ◌==◌, if◌then◌else◌, bytes_eq, Result, ok,
  err, ◌>>=◌, ◌>>◌, ok_or,
}
use bobr.Base.Text.{codes}
use bobr.Repo.Error.{
  RepositoryError, tar_long_path, tar_long_name_order, tar_duplicate_long_link, tar_long_data,
  tar_long_name_fits, tar_long_link_fits, tar_too_many_entries, tar_link_of_file, tar_empty_target,
  tar_target_too_long, tar_structural_overflow, tar_structural_limit, tar_nonzero_size, panic,
}
use bobr.Repo.Tar.{max_tar_path_bytes, ustar_path_fields, normalize_path, is_empty}
use bobr.Repo.Tar.Nodes.{NodeKind, directory, file, symlink, Nodes, insert_path}
use bobr.Repo.Tar.Reader.{Reader, read_entry_bytes, copy_entry_bytes, skip_entry_bytes}
use bobr.Repo.Tar.Header.{ParsedHeader}
use bobr.Repo.Master.{is_some, is_none}

abbrev pub max_tar_entries : ℕ
max_tar_entries = 4 * 1024 * 1024

abbrev pub max_tar_symlink_target_bytes : ℕ
max_tar_symlink_target_bytes = 4095

abbrev pub max_tar_structural_bytes : ℕ
max_tar_structural_bytes = 256 * 1024 * 1024

pub record FsApi (Fs : Type 0) : Type 0 where
  pub create_dir_all : List ℕ → Fs → Result RepositoryError Fs
  pub create_new : List ℕ → Fs → Result RepositoryError Fs
  pub write : List ℕ → List ℕ → Fs → Result RepositoryError Fs
  pub set_permissions : List ℕ → ℕ → Fs → Result RepositoryError Fs
  pub make_symlink : List ℕ → List ℕ → Fs → Result RepositoryError Fs

-- `ExtractState`, with the reader and the file system.
pub record ExtractState (Fs : Type 0) : Type 0 where
  pub nodes : Nodes
  pub pending_name : Option (List ℕ)
  pub pending_link : Option (List ℕ)
  pub entries : ℕ
  pub structural_bytes : ℕ
  pub reader : Reader
  pub fs : Fs

abbrev pub unwrap_or : Option (List ℕ) → List ℕ → List ℕ
unwrap_or none other = other
unwrap_or (some value) other = value

-- `Err(e)` where the test holds.
abbrev pub fail_if : Bool → RepositoryError → Result RepositoryError (Unit {0})
fail_if true e = err e
fail_if false e = ok tt

-- The value without its one NUL at the end.
unfoldable pub long_value : List ℕ → Result RepositoryError (List ℕ)
long_value value =
    let text = take (length value - 1) value in
    if ltb (length value) 2
      || not (bytes_eq (last_byte value) (0 ∷ []))
      || not (all (λ b. not (b == 0)) text)
    then err tar_long_data
    else ok text
  where
    last_byte : List ℕ → List ℕ
    last_byte [] = []
    last_byte (b ∷ []) = b ∷ []
    last_byte (b ∷ c ∷ bs) = last_byte (c ∷ bs)

-- `match header.kind`; `none` is `unreachable!()`.
unfoldable pub node_kind : ℕ → Option NodeKind
node_kind kind =
    if kind == 0 || kind == b'0'
    then some file
    else if kind == b'2'
    then some symlink
    else if kind == b'5'
    then some directory
    else none

-- The checks of the link target.
unfoldable pub check_link : NodeKind → List ℕ → Result RepositoryError (Unit {0})
check_link file link = fail_if (not (is_empty link)) tar_link_of_file
check_link directory link = fail_if (not (is_empty link)) tar_link_of_file
check_link symlink link = do
  fail_if (is_empty link) tar_empty_target
  fail_if (ltb max_tar_symlink_target_bytes (length link)) tar_target_too_long

abbrev pub is_file : NodeKind → Bool
is_file file = true
is_file directory = false
is_file symlink = false

abbrev pub checked_sum : ℕ → ℕ → ℕ → Option ℕ
checked_sum a b c =
    if ltb (a + b) (2 ^ 64)
    then (if ltb (a + b + c) (2 ^ 64) then some (a + b + c) else none)
    else none

module _ {Fs : Type 0} (api : FsApi Fs) where
  unfoldable pub read_long :
      ParsedHeader → ExtractState Fs → Result RepositoryError (ExtractState Fs)
  read_long header st = do
    fail_if (not (bytes_eq header.path (codes "././@LongLink"))) tar_long_path
    if header.kind == b'L'
        then fail_if (is_some st.pending_name || is_some st.pending_link) tar_long_name_order
        else fail_if (is_some st.pending_link) tar_duplicate_long_link
    data_read ←
        read_entry_bytes header.size
          ((if header.kind == b'L' then max_tar_path_bytes else max_tar_symlink_target_bytes) + 1)
          st.reader
    value ← long_value data_read.0
    if header.kind == b'L'
        then (fail_if (is_some (ustar_path_fields value)) tar_long_name_fits
            >> ok (record st { pending_name = some value; reader = data_read.1 }))
        else (fail_if (leb (length value) 100) tar_long_link_fits
            >> ok (record st { pending_link = some value; reader = data_read.1 }))

  -- The match on the kind at the end of `extract_logical`.
  unfoldable pub write_node :
      NodeKind → List ℕ → List ℕ → ParsedHeader → Reader → Fs → Result RepositoryError (Reader × Fs)
  write_node directory path link header reader fs = do
    fs' ← api.create_dir_all path fs
    reader' ← skip_entry_bytes header.size reader
    ok (reader', fs')
  write_node file path link header reader fs = do
    created ← api.create_new path fs
    copied ← copy_entry_bytes header.size reader
    written ← api.write path copied.0 created
    fs' ← api.set_permissions path (if not (bit_and header.mode 73 == 0) then 493 else 420) written
    ok (copied.1, fs')
  write_node symlink path link header reader fs = do
    fs' ← api.make_symlink link path fs
    reader' ← skip_entry_bytes header.size reader
    ok (reader', fs')

  unfoldable pub extract_logical :
      ParsedHeader → ExtractState Fs → Result RepositoryError (ExtractState Fs)
  extract_logical header st = do
    fail_if (ltb max_tar_entries (st.entries + 1)) tar_too_many_entries
    path ← normalize_path (unwrap_or st.pending_name header.path) (header.kind == b'5')
    kind ← ok_or (node_kind header.kind) panic
    check_link kind (unwrap_or st.pending_link header.link)
    structural ←
        ok_or
          (checked_sum st.structural_bytes (length path)
            (length (unwrap_or st.pending_link header.link)))
          tar_structural_overflow
    fail_if (ltb max_tar_structural_bytes structural) tar_structural_limit
    fail_if (not (is_file kind) && not (header.size == 0)) tar_nonzero_size
    inserted ← insert_path api.create_dir_all st.nodes st.fs path kind
    done ← write_node kind path (unwrap_or st.pending_link header.link) header st.reader inserted.1
    ok (record {
      nodes = inserted.0;
      pending_name = none;
      pending_link = none;
      entries = st.entries + 1;
      structural_bytes = structural;
      reader = done.0;
      fs = done.1;
    })
