-- ===== src/Repo/Tar/Reader.antt =====
-- bobr-repo/src/tar_profile.rs: what the extraction reads. `input` is the bytes that the reader
-- still has; that a read fails for another reason than the end is not modelled.
pub mod Blocks
use bobr.Base.{
  ℕ, zero, suc, ◌+◌, ◌-◌, ◌%◌, ◌^◌, ◌||◌, Bool, true, false, not, List, [], ◌∷◌, length, take, drop,
  all, ltb, leb, ◌==◌, if◌then◌else◌, Result, ok, err, ◌>>=◌,
}
use bobr.Repo.Error.{
  RepositoryError, tar_unexpected_end, tar_decoded_overflow, tar_extension_too_long,
  tar_truncated_entry, tar_nonzero_padding,
}

abbrev pub block : ℕ
block = 512

-- `input` and the counter `decoded`.
pub record Reader : Type 0 where
  pub input : List ℕ
  pub decoded : ℕ

-- `Read::read_exact`: the bytes, and what is left.
unfoldable pub read_exact : ℕ → Reader → Result RepositoryError (List ℕ × Reader)
read_exact n r =
    if leb n (length r.input)
    then ok (take n r.input, record r { input = drop n r.input })
    else err tar_unexpected_end

-- `*decoded = decoded.checked_add(n)…?`.
unfoldable pub add_decoded : ℕ → Reader → Result RepositoryError Reader
add_decoded n r =
    if ltb (r.decoded + n) (2 ^ 64)
    then ok (record r { decoded = r.decoded + n })
    else err tar_decoded_overflow

unfoldable pub read_block : Reader → Result RepositoryError (List ℕ × Reader)
read_block r = do state ← read_exact block r; r' ← add_decoded block state.1; ok (state.0, r')

abbrev min_size : ℕ → ℕ → ℕ
min_size a b = if leb a b then a else b

-- The loop of `read_padding`. Each round takes a byte at least, so `remaining` rounds are enough.
unfoldable pub padding_loop : ℕ → ℕ → Reader → Result RepositoryError Reader
padding_loop zero remaining r = ok r
padding_loop (suc fuel) remaining r =
    let round = read_exact (min_size remaining block) r >>= λ state.
    let rest = padding_loop fuel (remaining - min_size remaining block) state.1 in
    if all (λ byte. byte == 0) state.0 then rest else err tar_nonzero_padding in
    if ltb 0 remaining then round else ok r

abbrev pub padding : ℕ → ℕ
padding size = (block - size % block) % block

unfoldable pub read_padding : ℕ → Reader → Result RepositoryError Reader
read_padding size r =
    padding_loop (padding size) (padding size) r >>= λ r'. add_decoded (padding size) r'

unfoldable pub read_entry_bytes : ℕ → ℕ → Reader → Result RepositoryError (List ℕ × Reader)
read_entry_bytes size limit r =
    let run = do
      state ← read_exact size r
      padded ← read_padding size state.1
      r' ← add_decoded size padded
      ok (state.0, r')
    in if ltb limit size then err tar_extension_too_long else run

-- `io::copy(&mut input.take(size), output)`, and the check that all of it was there.
unfoldable pub copy_exact : ℕ → Reader → Result RepositoryError (List ℕ × Reader)
copy_exact size r =
    if leb size (length r.input)
    then ok (take size r.input, record r { input = drop size r.input })
    else err tar_truncated_entry

-- The bytes are what is written to `output`.
unfoldable pub copy_entry_bytes : ℕ → Reader → Result RepositoryError (List ℕ × Reader)
copy_entry_bytes size r = do
  state ← copy_exact size r
  counted ← add_decoded size state.1
  r' ← read_padding size counted
  ok (state.0, r')

unfoldable pub skip_entry_bytes : ℕ → Reader → Result RepositoryError Reader
skip_entry_bytes size r = do
  state ← copy_exact size r
  counted ← add_decoded size state.1
  read_padding size counted
