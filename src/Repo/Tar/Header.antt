-- ===== src/Repo/Tar/Header.antt =====
-- bobr-repo/src/tar_profile.rs: `parse_header` and its checksum, on the 512 bytes of a block.
use bobr.Base.{
  ℕ, ◌+◌, ◌-◌, ◌&&◌, List, [], ◌∷◌, ◌++◌, take, drop, ltb, leb, ◌==◌, if◌then◌else◌, bytes_eq,
  Result, ok, err, ◌>>=◌, ◌>>◌, get_elem?, ok_or,
}
use bobr.Base.Text.{codes}
use bobr.Repo.Error.{RepositoryError, tar_checksum, tar_not_ustar, panic}
use bobr.Repo.Tar.{parse_octal, parse_octal_empty, parse_size, nul_field, header_path}

pub record ParsedHeader : Type 0 where
  pub path : List ℕ
  pub link : List ℕ
  pub mode : ℕ
  pub size : ℕ
  pub kind : ℕ

-- `&header[from..to]`.
abbrev pub field : ℕ → ℕ → List ℕ → List ℕ
field from to header = take (to - from) (drop from header)

-- The sum of `validate_checksum`, from the byte at `index` on: the field itself counts as blanks.
unfoldable pub checksum_from : ℕ → List ℕ → ℕ
checksum_from index [] = 0
checksum_from index (byte ∷ header) =
    (if leb 148 index && ltb index 156 then 32 else byte) + checksum_from (index + 1) header

unfoldable pub validate_checksum : List ℕ → Result RepositoryError (Unit {0})
validate_checksum header = parse_octal (field 148 156 header) >>= λ expected.
    if checksum_from 0 header == expected then ok tt else err tar_checksum

unfoldable pub parse_header : List ℕ → Result RepositoryError ParsedHeader
parse_header header = do
  validate_checksum header
  if bytes_eq (field 257 263 header) (codes "ustar" ++ 0 ∷ [])
        && bytes_eq (field 263 265 header) (codes "00")
      then ok tt
      else err tar_not_ustar
  name ← nul_field (field 0 100 header)
  mode ← parse_octal (field 100 108 header)
  uid ← parse_octal (field 108 116 header)
  gid ← parse_octal (field 116 124 header)
  parsed ← ok_or (parse_size (field 124 136 header)) panic
  size ← parsed
  mtime ← parse_octal (field 136 148 header)
  kind ← ok_or (get_elem? header 156) panic
  link ← nul_field (field 157 257 header)
  prefix ← nul_field (field 345 500 header)
  parse_octal_empty (field 329 337 header)
  parse_octal_empty (field 337 345 header)
  ok (record { path = header_path name prefix; link = link; mode = mode; size = size; kind = kind })
