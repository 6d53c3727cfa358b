-- ===== src/Repo/Index/Mapping.antt =====
-- `MappingIndex::from_bytes` and the loop over its records.
use bobr.Base.{
  ℕ, ◌%◌, ◌≤◌, ◌≡◌, ◌≢◌, refl, sym, ◌∙◌, subst, ◌↔◌, ◌⊎◌, inl, inr, false, none, some, List, [],
  ◌∷◌, length, All, ltb, ◌==◌, ==_iff, if◌then◌else◌, bytes_eq, bytes_eq_refl, eq_of_bytes_eq, ok,
  >>=-eq-ok, Bool-cases, Ordering, arith,
}
use bobr.Base.Order.{cmp, ◌≺◌, is_lt, ≺_trans, less, equal, greater, Cmp-cases}
use bobr.Base.Chunks.{chunks_exact}
use bobr.Repo.Index.{
  MappingIndex, max_metadata_bytes, check_metadata_size, contains_hash, record_key, record_hash,
  check_records, mapping_from_bytes,
}

infix 50 ◌≼◌
abbrev pub ◌≼◌ : List ℕ → List ℕ → Type 0
a ≼ b = is_lt (cmp b a) ≡ false

≼-cases : (a b : List ℕ) → a ≼ b → (a ≡ b) ⊎ (a ≺ b)
≼-cases a b h = elim (Cmp-cases b a) [
  | less lt ↦ absurd (cc (rw lt at h))
  | equal e c ↦ inl (sym e)
  | greater gt c ↦ inr gt
]

pub not_≺-of-≼ : (a b : List ℕ) → a ≼ b → cmp b a ≢ Ordering.lt
not_≺-of-≼ a b h e = cc (rw e at h)

pub ≼-of-not_≺ : (a b : List ℕ) → cmp b a ≢ Ordering.lt → a ≼ b
≼-of-not_≺ a b h = elim (Cmp-cases b a) [
  | less lt ↦ absurd (h lt)
  | equal e c ↦ rw c
  | greater gt c ↦ rw c
]

pub ≼_trans : (a b c : List ℕ) → a ≼ b → b ≼ c → a ≼ c
≼_trans a b c h k = elim (≼-cases a b h) [
  | inl e ↦ subst (λ w. w ≼ c) (sym e) k
  | inr lt ↦ ≼-of-not_≺ a c (λ less. not_≺-of-≼ b c k (≺_trans c a b less lt))
]

pub ≼_antisym : (a b : List ℕ) → a ≼ b → b ≼ a → a ≡ b
≼_antisym a b h k = elim (≼-cases a b h) [ inl e ↦ e | inr lt ↦ absurd (not_≺-of-≼ b a k lt) ]

-- `s` may stand behind `r`.
abbrev pub Follows : List ℕ → List ℕ → Type 0
Follows r s =
    (record_key r ≼ record_key s) × (record_key r ≡ record_key s → record_hash r ≢ record_hash s)

-- Each record may stand behind all that precede it.
abbrev pub Ordered : List (List ℕ) → Type 0
Ordered [] = Unit
Ordered (r ∷ rs) = All (λ s. Follows r s) rs × Ordered rs

-- `s` may stand behind records of the key `previous` with the hashes `seen`, and earlier keys.
abbrev After : List ℕ → List (List ℕ) → List ℕ → Type 0
After previous seen s =
    (previous ≼ record_key s)
    × (record_key s ≡ previous → contains_hash (record_hash s) seen ≡ false)

abbrev kept : List ℕ → List (List ℕ) → List ℕ → List (List ℕ)
kept previous seen r = if bytes_eq (record_key r) previous then seen else []

contains_hash-cons :
    (h x : List ℕ) (xs : List (List ℕ))
    → contains_hash h (x ∷ xs) ≡ false
    → (x ≢ h) × (contains_hash h xs ≡ false)
unfolding contains_hash
contains_hash-cons h x xs e = elim (Bool-cases (bytes_eq x h)) [
  | inl t ↦ absurd (cc (rw t at e))
  | inr f ↦ (λ same. (let yes = bytes_eq_refl h in cc (rw same at f, yes)), rw f at e)
]

contains_hash-cons_intro :
    (h x : List ℕ) (xs : List (List ℕ))
    → x ≢ h
    → contains_hash h xs ≡ false
    → contains_hash h (x ∷ xs) ≡ false
unfolding contains_hash
contains_hash-cons_intro h x xs ne e = elim (Bool-cases (bytes_eq x h)) [
  | inl t ↦ absurd (ne (eq_of_bytes_eq x h t))
  | inr f ↦ rw (f, e)
]

contains_hash-nil : (h : List ℕ) → contains_hash h [] ≡ false
unfolding contains_hash
contains_hash-nil h = refl

kept-same :
    (previous : List ℕ) (seen : List (List ℕ)) (r : List ℕ)
    → record_key r ≡ previous
    → kept previous seen r ≡ seen
kept-same previous seen r e = rw (e, bytes_eq_refl previous)

-- What may stand behind `r`, which stands behind `previous`, may stand behind `previous`.
All-After :
    (previous : List ℕ) (seen : List (List ℕ)) (r : List ℕ) (rs : List (List ℕ))
    → previous ≼ record_key r
    → All (λ s. After (record_key r) (record_hash r ∷ kept previous seen r) s) rs
    → All (λ s. After previous seen s) rs × All (λ s. Follows r s) rs
All-After previous seen r [] le a = (tt, tt)
All-After previous seen r (s ∷ rs) le a =
    let (le_s, fresh) = a.0 in
    let (after, follows) = All-After previous seen r rs le a.1 in
    (
      (
        (
          ≼_trans previous (record_key r) (record_key s) le le_s,
          λ e.
              let same =
                ≼_antisym (record_key r) previous (subst (λ w. record_key r ≼ w) e le_s) le in
              let (_, old) = contains_hash-cons _ _ _ (fresh (e ∙ sym same)) in
              subst (λ l. contains_hash (record_hash s) l ≡ false) (kept-same previous seen r same)
                old,
        ),
        after,
      ),
      ((le_s, λ e same. (contains_hash-cons _ _ _ (fresh (sym e))).0 same), follows),
    )

check_records_sound :
    (previous : List ℕ) (seen rs : List (List ℕ))
    → check_records (some previous) seen rs ≡ ok tt
    → All (λ s. After previous seen s) rs × Ordered rs
unfolding check_records
check_records_sound previous seen [] e = (tt, tt)
check_records_sound previous seen (r ∷ rs) e =
    elim (Bool-cases (is_lt (cmp (record_key r) previous))) [
      | inl t ↦ absurd (cc (rw t at e))
      | inr f ↦ elim (Bool-cases (contains_hash (record_hash r) (kept previous seen r))) [
        | inl t ↦ absurd (cc (rw (f, t) at e))
        | inr g ↦
            let (behind, ordered) =
              check_records_sound (record_key r) (record_hash r ∷ kept previous seen r) rs
                (rw (f, g) at e) in
            let (after, follows) = All-After previous seen r rs f behind in
            (
              (
                (
                  f,
                  λ same.
                      subst (λ l. contains_hash (record_hash r) l ≡ false)
                        (kept-same previous seen r same) g,
                ),
                after,
              ),
              (follows, ordered),
            )
      ]
    ]

kept-fresh :
    (previous : List ℕ) (seen : List (List ℕ)) (r s : List ℕ)
    → record_key s ≡ record_key r
    → (record_key s ≡ previous → contains_hash (record_hash s) seen ≡ false)
    → contains_hash (record_hash s) (kept previous seen r) ≡ false
kept-fresh previous seen r s e fresh = elim (Bool-cases (bytes_eq (record_key r) previous)) [
  | inl t ↦ rw t (fresh (e ∙ eq_of_bytes_eq _ _ t))
  | inr f ↦ rw f (contains_hash-nil (record_hash s))
]

All-After_intro :
    (previous : List ℕ) (seen : List (List ℕ)) (r : List ℕ) (rs : List (List ℕ))
    → All (λ s. After previous seen s) rs
    → All (λ s. Follows r s) rs
    → All (λ s. After (record_key r) (record_hash r ∷ kept previous seen r) s) rs
All-After_intro previous seen r [] a b = tt
All-After_intro previous seen r (s ∷ rs) a b = (
  (
    b.0.0,
    λ e.
        contains_hash-cons_intro (record_hash s) (record_hash r) _ (b.0.1 (sym e))
          (kept-fresh previous seen r s e a.0.1),
  ),
  All-After_intro previous seen r rs a.1 b.1,
)

check_records_complete :
    (previous : List ℕ) (seen rs : List (List ℕ))
    → All (λ s. After previous seen s) rs
    → Ordered rs
    → check_records (some previous) seen rs ≡ ok tt
unfolding check_records
check_records_complete previous seen [] a o = refl
check_records_complete previous seen (r ∷ rs) a o =
    rw (a.0.0, kept-fresh previous seen r r refl a.0.1)
      (check_records_complete (record_key r) (record_hash r ∷ kept previous seen r) rs
        (All-After_intro previous seen r rs a.1 o.0) o.1)

-- From a first record on, the loop is the one with that record's key and its hash.
All-After_first :
    (r : List ℕ) (rs : List (List ℕ))
    → All (λ s. Follows r s) rs ↔ All (λ s. After (record_key r) (record_hash r ∷ []) s) rs
All-After_first r [] = (λ a. tt, λ a. tt)
All-After_first r (s ∷ rs) =
    let (to, from) = All-After_first r rs in
    (
      λ a. (
        (a.0.0, λ e. contains_hash-cons_intro _ _ _ (a.0.1 (sym e)) (contains_hash-nil _)),
        to a.1,
      ),
      λ a. ((a.0.0, λ e. (contains_hash-cons _ _ _ (a.0.1 (sym e))).0), from a.1),
    )

check_records_iff : (rs : List (List ℕ)) → (check_records none [] rs ≡ ok tt) ↔ Ordered rs
unfolding check_records contains_hash
check_records_iff [] = (λ e. tt, λ o. refl)
check_records_iff (r ∷ rs) = (
  λ e.
      let (after, ordered) = check_records_sound (record_key r) (record_hash r ∷ []) rs e in
      ((All-After_first r rs).1 after, ordered),
  λ o.
      check_records_complete (record_key r) (record_hash r ∷ []) rs ((All-After_first r rs).0 o.0)
        o.1,
)

-- The bytes of a mapping index: within the size limit, whole records, keys in nondecreasing order
-- and no pair of key and hash twice.
pub record IsMapping (bytes : List ℕ) : Type 0 where
  pub size : length bytes ≤ max_metadata_bytes
  pub whole : length bytes % 64 ≡ 0
  pub ordered : Ordered (chunks_exact 64 bytes)

from_bytes_sound :
    (bytes : List ℕ) (index : MappingIndex)
    → mapping_from_bytes bytes ≡ ok index
    → IsMapping bytes × (index.bytes ≡ bytes)
unfolding mapping_from_bytes check_metadata_size
from_bytes_sound bytes index e = elim (Bool-cases (ltb max_metadata_bytes (length bytes))) [
  | inl t ↦ absurd (cc (rw t at e))
  | inr f ↦ elim (Bool-cases (length bytes % 64 == 0)) [
    | inr g ↦ absurd (cc (rw (f, g) at e))
    | inl t ↦
        let (_, run, last) =
          >>=-eq-ok (check_records none [] (chunks_exact 64 bytes)) _ (rw (f, t) at e) in
        (
          record {
            size = ground arith;
            whole = (==_iff _ 0).0 t;
            ordered = (check_records_iff (chunks_exact 64 bytes)).0 run;
          },
          cc last,
        )
  ]
]

from_bytes_complete :
    (bytes : List ℕ) → IsMapping bytes → mapping_from_bytes bytes ≡ ok (record { bytes = bytes })
unfolding mapping_from_bytes check_metadata_size
from_bytes_complete bytes h =
    let small : ltb max_metadata_bytes (length bytes) ≡ false = ground (arith, h.size) in
    rw (
      small,
      (==_iff (length bytes % 64) 0).1 h.whole,
      (check_records_iff (chunks_exact 64 bytes)).1 h.ordered,
    )

-- MappingIndex::from_bytes accepts exactly the byte strings within the limit that are whole
-- 64-byte records with keys in nondecreasing order and no pair of key and hash twice, and keeps
-- the bytes.
pub mapping_from_bytes_iff :
    (bytes : List ℕ) (index : MappingIndex)
    → (mapping_from_bytes bytes ≡ ok index) ↔ (IsMapping bytes × (index.bytes ≡ bytes))
mapping_from_bytes_iff bytes index =
    (from_bytes_sound bytes index, λ h. rw h.1 (from_bytes_complete bytes h.0))
