-- ===== src/Repo/Index.antt =====
-- bobr-repo/src/index.rs: fixed-width mapping indexes and content lists over exact bytes. Keys and
-- hashes are the 32 bytes of a record.
pub mod Search
pub mod Content
pub mod Contains
pub mod Encode
pub mod Mapping
pub mod Candidates
pub mod Lookup
mod Tests
use bobr.Base.{
  ℕ, zero, suc, ◌+◌, ◌-◌, ◌*◌, ◌/◌, ◌%◌, Bool, true, false, not, ◌&&◌, ◌||◌, Option, none, some,
  List, [], ◌∷◌, ◌++◌, length, take, drop, ltb, leb, ◌==◌, if◌then◌else◌, bytes_eq, Result, ok, err,
  ◌>>=◌, ◌>>◌, map, Ordering,
}
use bobr.Base.Order.{cmp, is_lt, is_le}
use bobr.Base.Chunks.{chunks, chunks_exact, slice_at}
use bobr.Repo.Error.{
  RepositoryError, metadata_too_large, mapping_size, keys_not_sorted, duplicate_pair, list_size,
  hashes_not_increasing,
}

abbrev pub max_metadata_bytes : ℕ
max_metadata_bytes = 1024 * 1024 * 1024

pub record MappingIndex : Type 0 where
  pub bytes : List ℕ

pub record ContentList : Type 0 where
  pub bytes : List ℕ

-- `BuildKey` or `ReuseKey`, with the object hash of the record.
abbrev pub Entry : Type 0
Entry = List ℕ × List ℕ

unfoldable pub check_metadata_size : ℕ → Result RepositoryError (Unit {0})
check_metadata_size size = if ltb max_metadata_bytes size then err metadata_too_large else ok tt

-- `lower_bound`: `base` and `len` are the loop's variables. Each round takes one from `len` at
-- least, so `len` rounds are enough.
unfoldable pub lower_bound_loop : ℕ → ℕ → ℕ → (ℕ → Ordering) → ℕ
lower_bound_loop zero base len compare = base
lower_bound_loop (suc fuel) base len compare =
    let half = len / 2 in
    let middle = base + half in
    let upper = lower_bound_loop fuel (middle + 1) (len - (half + 1)) compare in
    let lower = lower_bound_loop fuel base half compare in
    if ltb 0 len then (if is_lt (compare middle) then upper else lower) else base

unfoldable pub lower_bound : ℕ → (ℕ → Ordering) → ℕ
lower_bound len compare = lower_bound_loop len 0 len compare

-- `[H]::contains`.
unfoldable pub contains_hash : List ℕ → List (List ℕ) → Bool
contains_hash hash [] = false
contains_hash hash (h ∷ hs) = bytes_eq h hash || contains_hash hash hs

-- The two halves of a record of 64 bytes.
abbrev pub record_key : List ℕ → List ℕ
record_key bytes = take 32 bytes

abbrev pub record_hash : List ℕ → List ℕ
record_hash bytes = drop 32 bytes

-- The loop of `MappingIndex::from_bytes`: the key before, and the hashes seen for it.
unfoldable pub check_records :
    Option (List ℕ) → List (List ℕ) → List (List ℕ) → Result RepositoryError (Unit {0})
check_records previous_key hashes_for_key [] = ok tt
check_records none hashes_for_key (r ∷ rs) =
    let rest = check_records (some (record_key r)) (record_hash r ∷ hashes_for_key) rs in
    if contains_hash (record_hash r) hashes_for_key then err duplicate_pair else rest
check_records (some previous) hashes_for_key (r ∷ rs) =
    let kept = if bytes_eq (record_key r) previous then hashes_for_key else [] in
    let rest = check_records (some (record_key r)) (record_hash r ∷ kept) rs in
    if is_lt (cmp (record_key r) previous)
    then err keys_not_sorted
    else if contains_hash (record_hash r) kept
    then err duplicate_pair
    else rest

unfoldable pub mapping_from_bytes : List ℕ → Result RepositoryError MappingIndex
mapping_from_bytes bytes = do
  check_metadata_size (length bytes)
  if length bytes % 64 == 0 then ok tt else err mapping_size
  check_records none [] (chunks_exact 64 bytes)
  ok (record { bytes = bytes })

unfoldable pub concat_entries : List Entry → List ℕ
concat_entries [] = []
concat_entries ((key, hash) ∷ es) = key ++ (hash ++ concat_entries es)

unfoldable pub mapping_encode : List Entry → Result RepositoryError (List ℕ)
mapping_encode records =
    let bytes = concat_entries records in do _ ← mapping_from_bytes bytes; ok bytes

-- The loop of `candidates` behind the first record of the key.
unfoldable pub collect_candidates : List ℕ → List (List ℕ) → List (List ℕ) → List (List ℕ)
collect_candidates key candidates [] = candidates
collect_candidates key candidates (r ∷ rs) =
    let rest =
      collect_candidates key
        (if contains_hash (record_hash r) candidates
          then candidates
          else candidates ++ record_hash r ∷ [])
        rs in
    if bytes_eq (record_key r) key then rest else candidates

unfoldable pub candidates : MappingIndex → List ℕ → List (List ℕ)
candidates index key =
    let records = length index.bytes / 64 in
    let start = lower_bound records (λ i. cmp (take 32 (slice_at 64 index.bytes i)) key) in
    collect_candidates key [] (chunks_exact 64 (drop (start * 64) index.bytes))

unfoldable pub records : MappingIndex → List Entry
records index = map (λ r. (record_key r, record_hash r)) (chunks_exact 64 index.bytes)

-- The loop of `ContentList::from_bytes`.
unfoldable pub check_hashes : Option (List ℕ) → List (List ℕ) → Result RepositoryError (Unit {0})
check_hashes previous [] = ok tt
check_hashes none (h ∷ hs) = check_hashes (some h) hs
check_hashes (some previous) (h ∷ hs) =
    let rest = check_hashes (some h) hs in
    if is_le (cmp h previous) then err hashes_not_increasing else rest

unfoldable pub list_from_bytes : List ℕ → Result RepositoryError ContentList
list_from_bytes bytes = do
  check_metadata_size (length bytes)
  if length bytes % 32 == 0 then ok tt else err list_size
  check_hashes none (chunks_exact 32 bytes)
  ok (record { bytes = bytes })

-- `sort_unstable` of byte arrays: equal ones cannot be told apart, so any sort is this one.
unfoldable pub insert_hash : List ℕ → List (List ℕ) → List (List ℕ)
insert_hash h [] = h ∷ []
insert_hash h (x ∷ xs) =
    let rest = insert_hash h xs in if is_lt (cmp x h) then x ∷ rest else h ∷ x ∷ xs

unfoldable pub sort_hashes : List (List ℕ) → List (List ℕ)
sort_hashes [] = []
sort_hashes (h ∷ hs) = insert_hash h (sort_hashes hs)

-- `Vec::dedup`: of equal neighbours the first stays.
unfoldable pub dedup_from : List ℕ → List (List ℕ) → List (List ℕ)
dedup_from previous [] = []
dedup_from previous (h ∷ hs) =
    let same = dedup_from previous hs in
    let other = dedup_from h hs in if bytes_eq previous h then same else h ∷ other

unfoldable pub dedup : List (List ℕ) → List (List ℕ)
dedup [] = []
dedup (h ∷ hs) = h ∷ dedup_from h hs

unfoldable pub concat_hashes : List (List ℕ) → List ℕ
concat_hashes [] = []
concat_hashes (h ∷ hs) = h ++ concat_hashes hs

unfoldable pub list_encode : List (List ℕ) → List ℕ
list_encode hashes = concat_hashes (dedup (sort_hashes hashes))

unfoldable pub contains : ContentList → List ℕ → Bool
contains list hash =
    let records = length list.bytes / 32 in
    let index = lower_bound records (λ i. cmp (slice_at 32 list.bytes i) hash) in
    ltb index records && bytes_eq (slice_at 32 list.bytes index) hash

unfoldable pub iter : ContentList → List (List ℕ)
iter list = chunks_exact 32 list.bytes
