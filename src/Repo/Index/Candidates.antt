-- ===== src/Repo/Index/Candidates.antt =====
-- `MappingIndex::candidates`: the scan behind the binary search.
use bobr.Base.{
  ℕ, ◌≡◌, ◌≢◌, refl, sym, ap, ◌∙◌, subst, inl, inr, false, List, [], ◌∷◌, ◌++◌, map, append_assoc,
  append-nil, All, filter, bytes_eq, bytes_eq_refl, eq_of_bytes_eq, Bool-cases, arith,
}
use bobr.Base.Order.{cmp, ◌≺◌, is_lt, cmp_refl, ≺_trans}
use bobr.Repo.Index.{contains_hash, record_key, record_hash, collect_candidates}
use bobr.Repo.Index.Mapping.{◌≼◌, ≼_trans, ≼_antisym, not_≺-of-≼, ≼-of-not_≺, Follows, Ordered}

-- The hashes recorded for the key, in order: the specification of `candidates`.
abbrev pub hashes_of : List ℕ → List (List ℕ) → List (List ℕ)
hashes_of key rs = map record_hash (filter (λ r. bytes_eq (record_key r) key) rs)

contains_hash-append :
    (h x : List ℕ) (xs : List (List ℕ))
    → contains_hash h xs ≡ false
    → x ≢ h
    → contains_hash h (xs ++ x ∷ []) ≡ false
unfolding contains_hash
contains_hash-append h x [] e ne = elim (Bool-cases (bytes_eq x h)) [
  | inl t ↦ absurd (ne (eq_of_bytes_eq x h t))
  | inr f ↦ rw f
]
contains_hash-append h x (y ∷ xs) e ne = elim (Bool-cases (bytes_eq y h)) [
  | inl t ↦ absurd (cc (rw t at e))
  | inr f ↦ rw f (contains_hash-append h x xs (rw f at e) ne)
]

-- No key of the records is the one looked for once they have passed it.
hashes_of-past :
    (key : List ℕ) (rs : List (List ℕ)) → All (λ r. key ≺ record_key r) rs → hashes_of key rs ≡ []
hashes_of-past key [] a = refl
hashes_of-past key (r ∷ rs) a = elim (Bool-cases (bytes_eq (record_key r) key)) [
  | inr f ↦ rw f (hashes_of-past key rs a.1)
  | inl t ↦ absurd (
      let same = eq_of_bytes_eq _ _ t in
      let less = a.0 in let equal = cmp_refl key in cc (rw same at less, equal))
]

-- The same for the records before it.
pub hashes_of-before :
    (key : List ℕ) (rs : List (List ℕ)) → All (λ r. record_key r ≺ key) rs → hashes_of key rs ≡ []
hashes_of-before key [] a = refl
hashes_of-before key (r ∷ rs) a = elim (Bool-cases (bytes_eq (record_key r) key)) [
  | inr f ↦ rw f (hashes_of-before key rs a.1)
  | inl t ↦ absurd (
      let same = eq_of_bytes_eq _ _ t in
      let less = a.0 in let equal = cmp_refl key in cc (rw same at less, equal))
]

≺-of-≼ : (a b : List ℕ) → a ≼ b → bytes_eq b a ≡ false → a ≺ b
≺-of-≼ a b le ne = elim (Bool-cases (is_lt (cmp a b))) [
  | inl t ↦ ground arith
  | inr f ↦
      let same = ≼_antisym a b le f in let yes = bytes_eq_refl b in absurd (cc (rw same at ne, yes))
]

All-Follows-≺ :
    (key r : List ℕ) (rs : List (List ℕ))
    → key ≺ record_key r
    → All (λ s. Follows r s) rs
    → All (λ s. key ≺ record_key s) rs
All-Follows-≺ key r [] lt a = tt
All-Follows-≺ key r (s ∷ rs) lt a = (
  ≺-of-≼ key (record_key s) (≼_trans key (record_key r) (record_key s) (above lt) a.0.0)
      (differs a.0.0),
  All-Follows-≺ key r rs lt a.1,
)
  where
    above : key ≺ record_key r → key ≼ record_key r
    above lt =
        ≼-of-not_≺ key (record_key r)
          (λ less. (let both = ≺_trans _ _ _ lt less in let same = cmp_refl key in cc (both, same)))

    differs : record_key r ≼ record_key s → bytes_eq (record_key s) key ≡ false
    differs le = elim (Bool-cases (bytes_eq (record_key s) key)) [
      | inr f ↦ f
      | inl t ↦ absurd (
          not_≺-of-≼ (record_key r) (record_key s) le
            (subst (λ w. w ≺ record_key r) (sym (eq_of_bytes_eq _ _ t)) lt))
    ]

-- No record behind `r` for the key of `r` has a hash among those taken so far and that of `r`.
fresh-append :
    (key r : List ℕ) (taken rs : List (List ℕ))
    → record_key r ≡ key
    → All (λ s. Follows r s) rs
    → All (λ s. record_key s ≡ key → contains_hash (record_hash s) taken ≡ false) rs
    → All
        (λ s.
          record_key s ≡ key → contains_hash (record_hash s) (taken ++ record_hash r ∷ []) ≡ false)
        rs
fresh-append key r taken [] e f a = tt
fresh-append key r taken (s ∷ rs) e f a = (
  λ k. contains_hash-append (record_hash s) (record_hash r) taken (a.0 k) (f.0.1 (e ∙ sym k)),
  fresh-append key r taken rs e f.1 a.1,
)

-- The scan takes the hashes recorded for the key, when no key is below it.
pub collect_candidates_eq :
    (key : List ℕ) (taken rs : List (List ℕ))
    → Ordered rs
    → All (λ r. key ≼ record_key r) rs
    → All (λ r. record_key r ≡ key → contains_hash (record_hash r) taken ≡ false) rs
    → collect_candidates key taken rs ≡ taken ++ hashes_of key rs
unfolding collect_candidates
collect_candidates_eq key taken [] o a f = sym (append-nil taken)
collect_candidates_eq key taken (r ∷ rs) o a f = elim (Bool-cases (bytes_eq (record_key r) key)) [
  | inr ne ↦
      let past =
        hashes_of-past key rs (All-Follows-≺ key r rs (≺-of-≼ key (record_key r) a.0 ne) o.0) in
      rw (ne, past) (sym (append-nil taken))
  | inl t ↦
      let same = eq_of_bytes_eq (record_key r) key t in
      let new = f.0 same in
      rw (t, new)
        (collect_candidates_eq key (taken ++ record_hash r ∷ []) rs o.1 a.1
            (fresh-append key r taken rs same o.0 f.1)
          ∙ append_assoc taken (record_hash r ∷ []) (hashes_of key rs))
]

pub hashes_of-append :
    (key : List ℕ) (xs ys : List (List ℕ))
    → hashes_of key (xs ++ ys) ≡ hashes_of key xs ++ hashes_of key ys
hashes_of-append key [] ys = refl
hashes_of-append key (x ∷ xs) ys = elim (Bool-cases (bytes_eq (record_key x) key)) [
  | inl t ↦ rw t (ap (λ l. record_hash x ∷ l) (hashes_of-append key xs ys))
  | inr f ↦ rw f (hashes_of-append key xs ys)
]
