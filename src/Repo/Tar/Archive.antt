-- ===== src/Repo/Tar/Archive.antt =====
-- bobr-repo/src/tar_profile.rs: `extract_directory_tar`, the loop over the blocks of an archive. Each
-- round reads a block, so fuel of one more than the bytes of the input is enough.
pub mod Spent
pub mod Whole
mod Tests
use bobr.Base.{
  ℕ, zero, suc, ◌||◌, not, Bool, true, false, none, List, [], ◌∷◌, length, all, ◌==◌, if◌then◌else◌,
  Result, ok, err, ◌>>=◌,
}
use bobr.Repo.Error.{
  RepositoryError, tar_one_terminator, tar_trailing_bytes, tar_unsupported_type,
  tar_dangling_extension, panic,
}
use bobr.Repo.Master.{is_some}
use bobr.Repo.Tar.{is_empty}
use bobr.Repo.Tar.Reader.{Reader, read_block}
use bobr.Repo.Tar.Header.{ParsedHeader, parse_header}
use bobr.Repo.Tar.Extract.{FsApi, ExtractState, fail_if, read_long, extract_logical}

-- `header == [0; BLOCK]`.
abbrev pub is_zero : List ℕ → Bool
is_zero bytes = all (λ b. b == 0) bytes

-- What is behind the first block of zeros.
unfoldable pub read_terminator : Reader → Result RepositoryError Reader
read_terminator reader = read_block reader >>= λ second.
    fail_if (not (is_zero second.0)) tar_one_terminator >>= λ zeros.
    fail_if (not (is_empty second.1.input)) tar_trailing_bytes >>= λ over. ok second.1

module _ {Fs : Type 0} (api : FsApi Fs) where
  -- `match parsed.kind`.
  unfoldable pub extract_entry :
      ParsedHeader → ExtractState Fs → Result RepositoryError (ExtractState Fs)
  extract_entry parsed st =
      if parsed.kind == b'L' || parsed.kind == b'K'
      then read_long api parsed st
      else if parsed.kind == 0
          || (parsed.kind == b'0' || (parsed.kind == b'2' || parsed.kind == b'5'))
      then extract_logical api parsed st
      else err tar_unsupported_type

  unfoldable pub extract_loop : ℕ → ExtractState Fs → Result RepositoryError (ExtractState Fs)
  extract_loop zero st = err panic
  extract_loop (suc fuel) st = read_block st.reader >>= λ header.
      if is_zero header.0
      then (read_terminator header.1 >>= λ reader. ok (record st { reader = reader }))
      else (parse_header header.0 >>= λ parsed.
          extract_entry parsed (record st { reader = header.1 }) >>= λ later.
          extract_loop fuel later)

  abbrev pub start_state : List ℕ → Fs → ExtractState Fs
  start_state input fs = record {
    nodes = [];
    pending_name = none;
    pending_link = none;
    entries = 0;
    structural_bytes = 0;
    reader = record { input = input; decoded = 0 };
    fs = fs;
  }

  -- `create_root` is `create_dir` and `set_permissions` of the destination; `normalize_tree` sets the
  -- modes and times of the tree.
  unfoldable pub extract_directory_tar :
      (Fs → Result RepositoryError Fs)
      → (Fs → Result RepositoryError Fs)
      → List ℕ
      → Fs
      → Result RepositoryError (ℕ × Fs)
  extract_directory_tar create_root normalize_tree input fs = create_root fs >>= λ created.
      extract_loop (suc (length input)) (start_state input created) >>= λ st.
      fail_if (is_some st.pending_name || is_some st.pending_link) tar_dangling_extension
      >>= λ named. normalize_tree st.fs >>= λ fs'. ok (st.reader.decoded, fs')
