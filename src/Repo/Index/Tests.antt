-- ===== src/Repo/Index/Tests.antt =====
-- Runs of the modelled code on small inputs, and the theorems at such inputs.
use bobr.Base.{
  ℕ, zero, suc, ◌≡◌, refl, ◌↔◌, true, List, [], ◌∷◌, ◌++◌, map, filter, Any, bytes_eq, ok, err,
  compare, arith,
}
use bobr.Repo.Error.{duplicate_pair}
use bobr.Repo.Index.{
  Entry, ContentList, mapping_from_bytes, mapping_encode, candidates, records, list_from_bytes,
  list_encode, contains, iter, lower_bound, check_metadata_size, check_records, check_hashes,
  contains_hash, concat_hashes, sort_hashes, insert_hash, dedup, dedup_from, concat_entries,
  collect_candidates, lower_bound_loop,
}
use bobr.Base.Order.{cmp}
use bobr.Repo.Index.Search.{IsSplit, IsBound, lower_bound-IsBound}
use bobr.Repo.Index.Content.{IsContent, list_from_bytes_iff}
use bobr.Repo.Index.Contains.{contains_iff}
use bobr.Repo.Index.Encode.{list_from_bytes-list_encode}
use bobr.Repo.Index.Mapping.{IsMapping, mapping_from_bytes_iff}
use bobr.Repo.Index.Lookup.{candidates_eq}

abbrev hash_of : ℕ → ℕ → List ℕ
hash_of zero b = []
hash_of (suc n) b = b ∷ hash_of n b

abbrev hash : ℕ → List ℕ
hash b = hash_of 32 b

-- `content_list_is_canonical_and_searchable` of the source.
abbrev three_hashes : List ℕ
three_hashes = hash 1 ++ (hash 2 ++ hash 3)

three_hashes-encode : list_encode (hash 3 ∷ hash 1 ∷ hash 3 ∷ hash 2 ∷ []) ≡ three_hashes
unfolding list_encode concat_hashes sort_hashes insert_hash dedup dedup_from cmp bytes_eq
three_hashes-encode = refl

three_hashes-accepted : list_from_bytes three_hashes ≡ ok (record { bytes = three_hashes })
unfolding list_from_bytes check_metadata_size check_hashes cmp
three_hashes-accepted = refl

list_from_bytes_iff-example :
    (list_from_bytes three_hashes ≡ ok (record { bytes = three_hashes }))
    ↔ (IsContent three_hashes × (three_hashes ≡ three_hashes))
list_from_bytes_iff-example = list_from_bytes_iff three_hashes (record { bytes = three_hashes })

contains_iff-example :
    (contains (record { bytes = three_hashes }) (hash 2) ≡ true)
    ↔ Any (λ h. h ≡ hash 2) (iter (record { bytes = three_hashes }))
contains_iff-example =
    contains_iff three_hashes (record { bytes = three_hashes }) (hash 2) three_hashes-accepted

list_from_bytes-list_encode_example :
    (list : ContentList) × (list_from_bytes (list_encode (hash 3 ∷ hash 1 ∷ hash 3 ∷ [])) ≡ ok list)
    × ((h : List ℕ) → (contains list h ≡ true) ↔ Any (λ k. k ≡ h) (hash 3 ∷ hash 1 ∷ hash 3 ∷ []))
list_from_bytes-list_encode_example =
    list_from_bytes-list_encode (hash 3 ∷ hash 1 ∷ hash 3 ∷ []) (refl, (refl, (refl, tt)))
      (omega arith)

-- `mapping_index_preserves_candidate_priority` of the source.
abbrev three_entries : List Entry
three_entries = (hash 1, hash 8) ∷ (hash 1, hash 7) ∷ (hash 2, hash 6) ∷ []

abbrev three_records : List ℕ
three_records = hash 1 ++ (hash 8 ++ (hash 1 ++ (hash 7 ++ (hash 2 ++ hash 6))))

three_records-encode : mapping_encode three_entries ≡ ok three_records
unfolding mapping_encode concat_entries mapping_from_bytes check_metadata_size check_records
    contains_hash bytes_eq cmp
three_records-encode = refl

repeated_pair :
    mapping_encode ((hash 1, hash 8) ∷ (hash 1, hash 7) ∷ (hash 1, hash 8) ∷ [])
    ≡ err duplicate_pair
unfolding mapping_encode concat_entries mapping_from_bytes check_metadata_size check_records
    contains_hash bytes_eq cmp
repeated_pair = refl

three_records-accepted : mapping_from_bytes three_records ≡ ok (record { bytes = three_records })
unfolding mapping_from_bytes check_metadata_size check_records contains_hash bytes_eq cmp
three_records-accepted = refl

three_records-candidates :
    candidates (record { bytes = three_records }) (hash 1) ≡ hash 8 ∷ hash 7 ∷ []
unfolding candidates collect_candidates contains_hash bytes_eq cmp lower_bound lower_bound_loop
three_records-candidates = refl

mapping_from_bytes_iff-example :
    (mapping_from_bytes three_records ≡ ok (record { bytes = three_records }))
    ↔ (IsMapping three_records × (three_records ≡ three_records))
mapping_from_bytes_iff-example =
    mapping_from_bytes_iff three_records (record { bytes = three_records })

candidates_eq-example :
    candidates (record { bytes = three_records }) (hash 1)
    ≡ map
        (λ (e : Entry). e.1)
        (filter (λ (e : Entry). bytes_eq e.0 (hash 1)) (records (record { bytes = three_records })))
candidates_eq-example =
    candidates_eq three_records (record { bytes = three_records }) (hash 1) three_records-accepted

-- The positions of 10 items compared with 4.
compare_four-IsSplit : IsSplit 10 (λ i. compare i 4)
compare_four-IsSplit i j h k e = ground arith

lower_bound-IsBound_example : IsBound 10 (λ i. compare i 4) (lower_bound 10 (λ i. compare i 4))
lower_bound-IsBound_example = lower_bound-IsBound 10 (λ i. compare i 4) compare_four-IsSplit
