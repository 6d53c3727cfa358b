-- ===== src/Repo/Index/Lookup.antt =====
-- `MappingIndex::candidates` on a valid index: the binary search and the scan together.
use bobr.Base.{
  ℕ, zero, suc, ◌+◌, ◌-◌, ◌*◌, ◌/◌, ◌≤◌, ◌<◌, ◌≡◌, refl, sym, ap, ◌∙◌, subst, inl, inr, false, some,
  List, [], ◌∷◌, ◌++◌, map, length, take, drop, get_elem?, All, ltb, filter, bytes_eq, ok,
  Bool-cases, Ordering, length-drop, take-append-drop, arith,
}
use bobr.Base.Order.{cmp, ◌≺◌, is_lt}
use bobr.Base.Chunks.{chunks, chunks_exact, slice_at, length-chunks, get_elem?-chunks, chunks-drop}
use bobr.Repo.Index.{
  Entry, MappingIndex, contains_hash, record_key, record_hash, mapping_from_bytes,
  collect_candidates, candidates, records, lower_bound,
}
use bobr.Repo.Index.Search.{IsBound, lower_bound-IsBound}
use bobr.Repo.Index.Mapping.{
  ◌≼◌, ≼-of-not_≺, not_≺-of-≼, ≼_trans, Follows, Ordered, mapping_from_bytes_iff,
}
use bobr.Repo.Index.Contains.{get_elem?-All}
use bobr.Repo.Index.Candidates.{
  hashes_of, hashes_of-before, hashes_of-append, collect_candidates_eq,
}

All-of-get :
    (P : List ℕ → Type 0) (xs : List (List ℕ))
    → ((i : ℕ) (a : List ℕ) → get_elem? xs i ≡ some a → P a)
    → All P xs
All-of-get P [] h = tt
All-of-get P (x ∷ xs) h = (h 0 x refl, All-of-get P xs (λ i a e. h (suc i) a e))

get_elem?-take :
    (k : ℕ) (xs : List (List ℕ)) (i : ℕ) {a : List ℕ}
    → get_elem? (take k xs) i ≡ some a
    → (i < k) × (get_elem? xs i ≡ some a)
get_elem?-take zero xs i e = absurd (cc e)
get_elem?-take (suc k) [] i e = absurd (cc e)
get_elem?-take (suc k) (x ∷ xs) zero e = (omega arith, e)
get_elem?-take (suc k) (x ∷ xs) (suc i) e =
    let (lt, here) = get_elem?-take k xs i e in (omega arith, here)

get_elem?-drop :
    (k : ℕ) (xs : List (List ℕ)) (i : ℕ) {a : List ℕ}
    → get_elem? (drop k xs) i ≡ some a
    → (j : ℕ) × (k ≤ j) × (get_elem? xs j ≡ some a)
get_elem?-drop zero xs i e = (i, omega arith, e)
get_elem?-drop (suc k) [] i e = absurd (cc e)
get_elem?-drop (suc k) (x ∷ xs) i e =
    let (j, le, here) = get_elem?-drop k xs i e in (suc j, omega arith, here)

get_elem?-lt : (xs : List (List ℕ)) (i : ℕ) {a : List ℕ} → get_elem? xs i ≡ some a → i < length xs
get_elem?-lt [] i e = absurd (cc e)
get_elem?-lt (x ∷ xs) zero e = omega arith
get_elem?-lt (x ∷ xs) (suc i) e = let lt = get_elem?-lt xs i e in omega arith

get_elem?-Follows :
    (xs : List (List ℕ)) (i j : ℕ) (a b : List ℕ)
    → Ordered xs
    → i < j
    → get_elem? xs i ≡ some a
    → get_elem? xs j ≡ some b
    → Follows a b
get_elem?-Follows [] i j a b h lt e k = absurd (cc e)
get_elem?-Follows (x ∷ xs) i zero a b h lt e k = absurd (omega arith)
get_elem?-Follows (x ∷ xs) zero (suc j) a b h lt e k =
    subst (λ w. Follows w b) (cc e) (get_elem?-All (λ w. Follows x w) xs j b h.0 k)
get_elem?-Follows (x ∷ xs) (suc i) (suc j) a b h lt e k =
    get_elem?-Follows xs i j a b h.1 (omega arith) e k

Ordered-drop : (k : ℕ) (xs : List (List ℕ)) → Ordered xs → Ordered (drop k xs)
Ordered-drop zero xs o = o
Ordered-drop (suc k) [] o = tt
Ordered-drop (suc k) (x ∷ xs) o = Ordered-drop k xs o.1

none_taken :
    (key : List ℕ) (xs : List (List ℕ))
    → All (λ r. record_key r ≡ key → contains_hash (record_hash r) [] ≡ false) xs
unfolding contains_hash
none_taken key [] = tt
none_taken key (x ∷ xs) = (λ e. refl, none_taken key xs)

module _ (n : ℕ) (bytes key : List ℕ) (ordered : Ordered (chunks n 64 bytes)) where
  abbrev pieces : List (List ℕ)
  pieces = chunks n 64 bytes

  abbrev piece : ℕ → List ℕ
  piece i = slice_at 64 bytes i

  abbrev start : ℕ
  start = lower_bound n (λ i. cmp (take 32 (slice_at 64 bytes i)) key)

  piece-≼ : (i j : ℕ) → i < j → j < n → record_key (piece i) ≼ record_key (piece j)
  piece-≼ i j h k =
      (get_elem?-Follows pieces i j (piece i) (piece j) ordered h
        (get_elem?-chunks n 64 bytes i (omega arith)) (get_elem?-chunks n 64 bytes j k)).0

  ≺-of-≼-≺ : (a b c : List ℕ) → a ≼ b → b ≺ c → a ≺ c
  ≺-of-≼-≺ a b c h k = elim (Bool-cases (is_lt (cmp a c))) [
    | inl t ↦ ground arith
    | inr f ↦ absurd (not_≺-of-≼ c b (≼_trans c a b f h) k)
  ]

  start-IsBound : IsBound n (λ i. cmp (take 32 (slice_at 64 bytes i)) key) start
  start-IsBound = lower_bound-IsBound n _ (λ i j h k e. elim (Bool-cases (ltb i j)) [
    | inl t ↦ ≺-of-≼-≺ _ _ _ (piece-≼ i j (ground arith) k) e
    | inr f ↦
        let same : j ≡ i = ground arith in
        subst (λ w. cmp (take 32 (slice_at 64 bytes w)) key ≡ Ordering.lt) same e
  ])

  piece-of-get : (i : ℕ) {a : List ℕ} → get_elem? pieces i ≡ some a → (i < n) × (piece i ≡ a)
  piece-of-get i e =
      let lt : i < n = subst (λ w. i < w) (length-chunks n 64 bytes) (get_elem?-lt pieces i e) in
      let here = get_elem?-chunks n 64 bytes i lt in (lt, cc (here, e))

  before-start : All (λ r. record_key r ≺ key) (take start pieces)
  before-start = All-of-get _ (take start pieces) (λ i a e.
      let (lt, here) = get_elem?-take start pieces i e in
      let (_, same) = piece-of-get i here in
      subst (λ w. record_key w ≺ key) same (start-IsBound.below i lt))

  from_start : All (λ r. key ≼ record_key r) (drop start pieces)
  from_start = All-of-get _ (drop start pieces) (λ i a e.
      let (j, le, here) = get_elem?-drop start pieces i e in
      let (lt, same) = piece-of-get j here in
      subst (λ w. key ≼ record_key w) same (≼-of-not_≺ key _ (start-IsBound.above j le lt)))

  collect-from_start : collect_candidates key [] (drop start pieces) ≡ hashes_of key pieces
  collect-from_start =
      collect_candidates_eq key [] (drop start pieces) (Ordered-drop start pieces ordered)
        from_start (none_taken key (drop start pieces))
      ∙ sym (
          ap (hashes_of key) (sym (take-append-drop start pieces))
          ∙ hashes_of-append key (take start pieces) (drop start pieces)
          ∙ ap (λ l. l ++ hashes_of key (drop start pieces))
              (hashes_of-before key (take start pieces) before-start))

  scanned : n ≡ length bytes / 64 → chunks_exact 64 (drop (start * 64) bytes) ≡ drop start pieces
  scanned e =
      let within = start-IsBound.within in
      let left = length-drop (start * 64) bytes (omega arith) in
      let count : length (drop (start * 64) bytes) / 64 ≡ n - start = omega arith in
      let total : start + (n - start) ≡ n = omega arith in
      ap (λ c. chunks c 64 (drop (start * 64) bytes)) count
      ∙ chunks-drop start (n - start) 64 bytes
      ∙ ap (λ c. drop start (chunks c 64 bytes)) total

hashes_of-records :
    (key : List ℕ) (rs : List (List ℕ))
    → hashes_of key rs
      ≡ map
          (λ (e : Entry). e.1)
          (filter (λ (e : Entry). bytes_eq e.0 key) (map (λ r. (record_key r, record_hash r)) rs))
hashes_of-records key [] = refl
hashes_of-records key (r ∷ rs) = elim (Bool-cases (bytes_eq (record_key r) key)) [
  | inl t ↦ rw t (ap (λ l. record_hash r ∷ l) (hashes_of-records key rs))
  | inr f ↦ rw f (hashes_of-records key rs)
]

-- In an index that from_bytes accepted, the binary search and scan of candidates return the same
-- as filtering all records for the key: every hash recorded for it, in wire order.
pub candidates_eq :
    (bytes : List ℕ) (index : MappingIndex) (key : List ℕ)
    → mapping_from_bytes bytes ≡ ok index
    → candidates index key
      ≡ map (λ (e : Entry). e.1) (filter (λ (e : Entry). bytes_eq e.0 key) (records index))
unfolding candidates records
candidates_eq bytes index key e =
    let (valid, same) = (mapping_from_bytes_iff bytes index).0 e in
    let ordered : Ordered (chunks_exact 64 index.bytes) =
      subst (λ w. Ordered (chunks_exact 64 w)) (sym same) valid.ordered in
    ap (collect_candidates key []) (scanned (length index.bytes / 64) index.bytes key ordered refl)
    ∙ collect-from_start (length index.bytes / 64) index.bytes key ordered
    ∙ hashes_of-records key (chunks_exact 64 index.bytes)
