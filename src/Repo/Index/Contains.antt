-- ===== src/Repo/Index/Contains.antt =====
-- `ContentList::contains`, the binary search over a valid list.
use bobr.Base.{
  ℕ, zero, suc, ◌/◌, ◌<◌, ◌≡◌, sym, ap, ◌∙◌, subst, ◌↔◌, inl, inr, true, some, List, [], ◌∷◌,
  length, get_elem?, All, Any, ltb, ok, ◌&&◌, Bool-cases, bytes_eq, bytes_eq_refl, eq_of_bytes_eq,
  Ordering, arith,
}
use bobr.Base.Order.{cmp, ◌≺◌, cmp_refl, ≺_trans}
use bobr.Base.Chunks.{chunks, chunks_exact, slice_at, length-chunks, get_elem?-chunks}
use bobr.Repo.Index.{ContentList, list_from_bytes, contains, iter, lower_bound}
use bobr.Repo.Index.Search.{IsSplit, IsBound, lower_bound-IsBound}
use bobr.Repo.Index.Content.{Increasing, list_from_bytes_iff}

pub get_elem?-All :
    (P : List ℕ → Type 0) (xs : List (List ℕ)) (i : ℕ) (a : List ℕ)
    → All P xs
    → get_elem? xs i ≡ some a
    → P a
get_elem?-All P [] i a h e = absurd (cc e)
get_elem?-All P (x ∷ xs) zero a h e = subst P (cc e) h.0
get_elem?-All P (x ∷ xs) (suc i) a h e = get_elem?-All P xs i a h.1 e

-- Of two positions of an increasing list the later one holds more.
get_elem?-≺ :
    (xs : List (List ℕ)) (i j : ℕ) (a b : List ℕ)
    → Increasing xs
    → i < j
    → get_elem? xs i ≡ some a
    → get_elem? xs j ≡ some b
    → a ≺ b
get_elem?-≺ [] i j a b h lt e k = absurd (cc e)
get_elem?-≺ (x ∷ xs) i zero a b h lt e k = absurd (omega arith)
get_elem?-≺ (x ∷ xs) zero (suc j) a b h lt e k =
    subst (λ w. w ≺ b) (cc e) (get_elem?-All (λ w. x ≺ w) xs j b h.0 k)
get_elem?-≺ (x ∷ xs) (suc i) (suc j) a b h lt e k = get_elem?-≺ xs i j a b h.1 (omega arith) e k

Any-of-get :
    (hash : List ℕ) (xs : List (List ℕ)) (i : ℕ)
    → get_elem? xs i ≡ some hash
    → Any (λ h. h ≡ hash) xs
Any-of-get hash [] i e = absurd (cc e)
Any-of-get hash (x ∷ xs) zero e = inl (cc e)
Any-of-get hash (x ∷ xs) (suc i) e = inr (Any-of-get hash xs i e)

get-of-Any :
    (hash : List ℕ) (xs : List (List ℕ))
    → Any (λ h. h ≡ hash) xs
    → (i : ℕ) × (i < length xs) × (get_elem? xs i ≡ some hash)
get-of-Any hash [] h = absurd h
get-of-Any hash (x ∷ xs) (inl e) = (0, omega arith, ap some e)
get-of-Any hash (x ∷ xs) (inr h) = let (i, lt, e) = get-of-Any hash xs h in (suc i, omega arith, e)

module _ (n : ℕ) (bytes hash : List ℕ) (sorted : Increasing (chunks n 32 bytes)) where
  abbrev at_index : ℕ → List ℕ
  at_index i = slice_at 32 bytes i

  abbrev bound : ℕ
  bound = lower_bound n (λ i. cmp (at_index i) hash)

  at_index-≺ : (i j : ℕ) → i < j → j < n → at_index i ≺ at_index j
  at_index-≺ i j h k =
      get_elem?-≺ (chunks n 32 bytes) i j _ _ sorted h (get_elem?-chunks n 32 bytes i (omega arith))
        (get_elem?-chunks n 32 bytes j k)

  at_index-IsSplit : IsSplit n (λ i. cmp (at_index i) hash)
  at_index-IsSplit i j h k e = elim (Bool-cases (ltb i j)) [
    | inl t ↦ ≺_trans _ _ _ (at_index-≺ i j (ground arith) k) e
    | inr f ↦
        let same : j ≡ i = ground arith in subst (λ w. cmp (at_index w) hash ≡ Ordering.lt) same e
  ]

  bound-IsBound : IsBound n (λ i. cmp (at_index i) hash) bound
  bound-IsBound = lower_bound-IsBound n _ at_index-IsSplit

  bound-found : (i : ℕ) → i < n → at_index i ≡ hash → bound ≡ i
  bound-found i h e =
      let same : cmp (at_index i) hash ≡ Ordering.eq = rw e (cmp_refl hash) in
      elim (Bool-cases (ltb i bound)) [
        | inl t ↦ absurd (let l = bound-IsBound.below i (ground arith) in cc (l, same))
        | inr f ↦ elim (Bool-cases (ltb bound i)) [
          | inr g ↦ ground arith
          | inl t ↦ absurd (
              bound-IsBound.above bound (ground arith) (ground arith)
                (subst (λ w. at_index bound ≺ w) e (at_index-≺ bound i (ground arith) h)))
        ]
      ]

  contains_sound :
      (ltb bound n && bytes_eq (at_index bound) hash) ≡ true
      → Any (λ h. h ≡ hash) (chunks n 32 bytes)
  contains_sound e = elim (Bool-cases (ltb bound n)) [
    | inr f ↦ absurd (cc (rw f at e))
    | inl t ↦
        let eq = eq_of_bytes_eq _ _ (rw t at e) in
        Any-of-get hash (chunks n 32 bytes) bound
          (get_elem?-chunks n 32 bytes bound (ground arith) ∙ ap some eq)
  ]

  contains_complete :
      Any (λ h. h ≡ hash) (chunks n 32 bytes)
      → (ltb bound n && bytes_eq (at_index bound) hash) ≡ true
  contains_complete h =
      let (i, lt, e) = get-of-Any hash (chunks n 32 bytes) h in
      let small : i < n = subst (λ w. i < w) (length-chunks n 32 bytes) lt in
      let eq : at_index i ≡ hash = (let g = get_elem?-chunks n 32 bytes i small in cc (g, e)) in
      let here = bound-found i small eq in
      let yes : bytes_eq (at_index i) hash ≡ true = rw eq (bytes_eq_refl hash) in
      let within : ltb i n ≡ true = ground arith in
      subst (λ w. (ltb w n && bytes_eq (at_index w) hash) ≡ true) (sym here) (rw within yes)

-- In a list that from_bytes accepted, contains is true for exactly the hashes that iter
-- enumerates.
pub contains_iff :
    (bytes : List ℕ) (list : ContentList) (hash : List ℕ)
    → list_from_bytes bytes ≡ ok list
    → (contains list hash ≡ true) ↔ Any (λ h. h ≡ hash) (iter list)
unfolding contains iter
contains_iff bytes list hash e =
    let (content, same) = (list_from_bytes_iff bytes list).0 e in
    let sorted : Increasing (chunks_exact 32 list.bytes) =
      subst (λ w. Increasing (chunks_exact 32 w)) (sym same) content.increasing in
    (
      contains_sound (length list.bytes / 32) list.bytes hash sorted,
      contains_complete (length list.bytes / 32) list.bytes hash sorted,
    )
