-- ===== src/Repo/Index/Encode.antt =====
-- `ContentList::encode`: its sort, its `dedup`, and the list read back.
use bobr.Base.{
  ℕ, suc, ◌*◌, ◌/◌, ◌≤◌, ◌≡◌, refl, sym, ap, ◌∙◌, subst, ◌↔◌, ◌⊎◌, inl, inr, true, false, List, [],
  ◌∷◌, ◌++◌, length, take, drop, All, Any, ok, Bool-cases, bytes_eq, bytes_eq_refl, eq_of_bytes_eq,
  length-append, take-append, drop-append, arith,
}
use bobr.Base.Order.{cmp, ◌≺◌, is_lt, ≺_trans, less, equal, greater, Cmp-cases}
use bobr.Base.Chunks.{chunks, chunks_exact}
use bobr.Repo.Index.{
  ContentList, max_metadata_bytes, list_from_bytes, contains, iter, insert_hash, sort_hashes,
  dedup_from, dedup, concat_hashes, list_encode,
}
use bobr.Repo.Index.Content.{Increasing, IsContent, All-≺_trans, list_from_bytes_iff}
use bobr.Repo.Index.Contains.{contains_iff}

abbrev IsHash : List ℕ → Type 0
IsHash h = length h ≡ 32

-- Sorted, equal neighbours allowed.
infix 50 ◌≼◌
abbrev ◌≼◌ : List ℕ → List ℕ → Type 0
x ≼ y = (x ≺ y) ⊎ (x ≡ y)

abbrev Sorted : List (List ℕ) → Type 0
Sorted [] = Unit
Sorted (h ∷ hs) = All (λ k. h ≼ k) hs × Sorted hs

≼_trans : (a b c : List ℕ) → a ≼ b → b ≼ c → a ≼ c
≼_trans a b c (inl h) (inl k) = inl (≺_trans a b c h k)
≼_trans a b c (inl h) (inr e) = inl (subst (λ w. a ≺ w) e h)
≼_trans a b c (inr e) k = subst (λ w. w ≼ c) (sym e) k

All-≼_trans :
    (a b : List ℕ) (hs : List (List ℕ)) → a ≼ b → All (λ k. b ≼ k) hs → All (λ k. a ≼ k) hs
All-≼_trans a b [] h k = tt
All-≼_trans a b (x ∷ hs) h k = (≼_trans a b x h k.0, All-≼_trans a b hs h k.1)

insert_hash-All :
    (P : List ℕ → Type 0) (h : List ℕ) (xs : List (List ℕ))
    → P h
    → All P xs
    → All P (insert_hash h xs)
unfolding insert_hash
insert_hash-All P h [] p a = (p, tt)
insert_hash-All P h (x ∷ xs) p a = elim (Bool-cases (is_lt (cmp x h))) [
  | inl t ↦ rw t (a.0, insert_hash-All P h xs p a.1)
  | inr f ↦ rw f (p, a)
]

insert_hash-Sorted : (h : List ℕ) (xs : List (List ℕ)) → Sorted xs → Sorted (insert_hash h xs)
unfolding insert_hash
insert_hash-Sorted h [] s = (tt, tt)
insert_hash-Sorted h (x ∷ xs) s = elim (Cmp-cases x h) [
  | less lt ↦ rw lt (insert_hash-All (λ k. x ≼ k) h xs (inl lt) s.0, insert_hash-Sorted h xs s.1)
  | equal e c ↦ rw c ((inr (sym e), All-≼_trans h x xs (inr (sym e)) s.0), s)
  | greater gt c ↦ rw c ((inl gt, All-≼_trans h x xs (inl gt) s.0), s)
]

sort_hashes-Sorted : (hs : List (List ℕ)) → Sorted (sort_hashes hs)
unfolding sort_hashes
sort_hashes-Sorted [] = tt
sort_hashes-Sorted (h ∷ hs) = insert_hash-Sorted h (sort_hashes hs) (sort_hashes-Sorted hs)

sort_hashes-All : (P : List ℕ → Type 0) (hs : List (List ℕ)) → All P hs → All P (sort_hashes hs)
unfolding sort_hashes
sort_hashes-All P [] a = tt
sort_hashes-All P (h ∷ hs) a = insert_hash-All P h (sort_hashes hs) a.0 (sort_hashes-All P hs a.1)

dedup_from-All :
    (P : List ℕ → Type 0) (p : List ℕ) (hs : List (List ℕ)) → All P hs → All P (dedup_from p hs)
unfolding dedup_from
dedup_from-All P p [] a = tt
dedup_from-All P p (h ∷ hs) a = elim (Bool-cases (bytes_eq p h)) [
  | inl t ↦ rw t (dedup_from-All P p hs a.1)
  | inr f ↦ rw f (a.0, dedup_from-All P h hs a.1)
]

≺-of-≼ : (a b : List ℕ) → a ≼ b → bytes_eq a b ≡ false → a ≺ b
≺-of-≼ a b (inl h) f = h
≺-of-≼ a b (inr e) f = absurd (let yes = bytes_eq_refl b in cc (rw e at f, yes))

dedup_from-Increasing :
    (p : List ℕ) (hs : List (List ℕ))
    → All (λ k. p ≼ k) hs
    → Sorted hs
    → All (λ k. p ≺ k) (dedup_from p hs) × Increasing (dedup_from p hs)
unfolding dedup_from
dedup_from-Increasing p [] a s = (tt, tt)
dedup_from-Increasing p (h ∷ hs) a s = elim (Bool-cases (bytes_eq p h)) [
  | inl t ↦ rw t (dedup_from-Increasing p hs a.1 s.1)
  | inr f ↦
      let (above, increasing) = dedup_from-Increasing h hs s.0 s.1 in
      let lt = ≺-of-≼ p h a.0 f in rw f ((lt, All-≺_trans p h _ lt above), (above, increasing))
]

dedup-Increasing : (hs : List (List ℕ)) → Sorted hs → Increasing (dedup hs)
unfolding dedup
dedup-Increasing [] s = tt
dedup-Increasing (h ∷ hs) s = dedup_from-Increasing h hs s.0 s.1

dedup-All : (P : List ℕ → Type 0) (hs : List (List ℕ)) → All P hs → All P (dedup hs)
unfolding dedup
dedup-All P [] a = tt
dedup-All P (h ∷ hs) a = (a.0, dedup_from-All P h hs a.1)

on_tail : {R S T : Type 0} → (S → T) → R ⊎ S → R ⊎ T
on_tail f (inl r) = inl r
on_tail f (inr s) = inr (f s)

exchange : {R S T : Type 0} → R ⊎ (S ⊎ T) → S ⊎ (R ⊎ T)
exchange (inl r) = inr (inl r)
exchange (inr (inl s)) = inl s
exchange (inr (inr t)) = inr (inr t)

merge : {R S T : Type 0} → (S → R) → R ⊎ (S ⊎ T) → R ⊎ T
merge f (inl r) = inl r
merge f (inr (inl s)) = inl (f s)
merge f (inr (inr t)) = inr t

widen : {R S T : Type 0} → R ⊎ T → R ⊎ (S ⊎ T)
widen (inl r) = inl r
widen (inr t) = inr (inr t)

-- Membership survives the steps, both ways.
module _ (P : List ℕ → Type 0) where
  insert_hash-Any : (h : List ℕ) (xs : List (List ℕ)) → (P h ⊎ Any P xs) ↔ Any P (insert_hash h xs)
  unfolding insert_hash
  insert_hash-Any h [] = (λ a. a, λ a. a)
  insert_hash-Any h (x ∷ xs) = elim (Bool-cases (is_lt (cmp x h))) [
    | inl t ↦
        let (to, from) = insert_hash-Any h xs in
        rw t (λ a. on_tail to (exchange a), λ a. exchange (on_tail from a))
    | inr f ↦ rw f (λ a. a, λ a. a)
  ]

  sort_hashes-Any : (hs : List (List ℕ)) → Any P hs ↔ Any P (sort_hashes hs)
  unfolding sort_hashes
  sort_hashes-Any [] = (λ a. a, λ a. a)
  sort_hashes-Any (h ∷ hs) =
      let (to, from) = sort_hashes-Any hs in
      let (add, remove) = insert_hash-Any h (sort_hashes hs) in
      (λ a. add (on_tail to a), λ a. on_tail from (remove a))

dedup_from-Any :
    (P : List ℕ → Type 0) (p : List ℕ) (hs : List (List ℕ))
    → (P p ⊎ Any P hs) ↔ (P p ⊎ Any P (dedup_from p hs))
unfolding dedup_from
dedup_from-Any P p [] = (λ a. a, λ a. a)
dedup_from-Any P p (h ∷ hs) = elim (Bool-cases (bytes_eq p h)) [
  | inl t ↦
      let same = eq_of_bytes_eq p h t in
      let (to, from) = dedup_from-Any P p hs in
      rw t (λ a. to (merge (subst P (sym same)) a), λ a. widen (from a))
  | inr f ↦ let (to, from) = dedup_from-Any P h hs in rw f (λ a. on_tail to a, λ a. on_tail from a)
]

dedup-Any : (P : List ℕ → Type 0) (hs : List (List ℕ)) → Any P hs ↔ Any P (dedup hs)
unfolding dedup
dedup-Any P [] = (λ a. a, λ a. a)
dedup-Any P (h ∷ hs) = dedup_from-Any P h hs

length-concat_hashes :
    (hs : List (List ℕ)) → All IsHash hs → length (concat_hashes hs) ≡ length hs * 32
unfolding concat_hashes
length-concat_hashes [] a = omega arith
length-concat_hashes (h ∷ hs) a =
    length-append h (concat_hashes hs) ∙ omega (arith, a.0, length-concat_hashes hs a.1)

chunks-concat_hashes :
    (hs : List (List ℕ)) → All IsHash hs → chunks (length hs) 32 (concat_hashes hs) ≡ hs
unfolding concat_hashes
chunks-concat_hashes [] a = refl
chunks-concat_hashes (h ∷ hs) a =
    let front : take 32 (h ++ concat_hashes hs) ≡ h =
      subst (λ n. take n (h ++ concat_hashes hs) ≡ h) a.0 (take-append h (concat_hashes hs)) in
    let back : drop 32 (h ++ concat_hashes hs) ≡ concat_hashes hs =
      subst (λ n. drop n (h ++ concat_hashes hs) ≡ concat_hashes hs) a.0
        (drop-append h (concat_hashes hs)) in
    rw (front, back, chunks-concat_hashes hs a.1)

chunks_exact-concat_hashes :
    (hs : List (List ℕ)) → All IsHash hs → chunks_exact 32 (concat_hashes hs) ≡ hs
chunks_exact-concat_hashes hs a =
    let size : length (concat_hashes hs) / 32 ≡ length hs =
      omega (arith, length-concat_hashes hs a) in
    rw size (chunks-concat_hashes hs a)

length-insert_hash : (h : List ℕ) (xs : List (List ℕ)) → length (insert_hash h xs) ≡ suc (length xs)
unfolding insert_hash
length-insert_hash h [] = refl
length-insert_hash h (x ∷ xs) = elim (Bool-cases (is_lt (cmp x h))) [
  | inl t ↦ rw t (ap suc (length-insert_hash h xs))
  | inr f ↦ rw f
]

length-sort_hashes : (hs : List (List ℕ)) → length (sort_hashes hs) ≡ length hs
unfolding sort_hashes
length-sort_hashes [] = refl
length-sort_hashes (h ∷ hs) = length-insert_hash h (sort_hashes hs) ∙ ap suc (length-sort_hashes hs)

length-dedup_from : (p : List ℕ) (hs : List (List ℕ)) → length (dedup_from p hs) ≤ length hs
unfolding dedup_from
length-dedup_from p [] = omega arith
length-dedup_from p (h ∷ hs) = elim (Bool-cases (bytes_eq p h)) [
  | inl t ↦ rw t (omega (arith, length-dedup_from p hs))
  | inr f ↦ rw f (omega (arith, length-dedup_from h hs))
]

length-dedup : (hs : List (List ℕ)) → length (dedup hs) ≤ length hs
unfolding dedup
length-dedup [] = omega arith
length-dedup (h ∷ hs) = omega (arith, length-dedup_from h hs)

abbrev canonical : List (List ℕ) → List (List ℕ)
canonical hs = dedup (sort_hashes hs)

canonical-All : (hs : List (List ℕ)) → All IsHash hs → All IsHash (canonical hs)
canonical-All hs a = dedup-All IsHash (sort_hashes hs) (sort_hashes-All IsHash hs a)

list_encode-IsContent :
    (hs : List (List ℕ))
    → All IsHash hs
    → length hs * 32 ≤ max_metadata_bytes
    → IsContent (list_encode hs)
unfolding list_encode
list_encode-IsContent hs a small =
    let size = length-concat_hashes (canonical hs) (canonical-All hs a) in
    let fewer = length-dedup (sort_hashes hs) in
    let same = length-sort_hashes hs in
    record {
      size = omega arith;
      whole = omega arith;
      increasing =
          rw (chunks_exact-concat_hashes (canonical hs) (canonical-All hs a))
            (dedup-Increasing (sort_hashes hs) (sort_hashes-Sorted hs));
    }

-- For 32-byte hashes in any order and with repetitions, whose number times 32 is within the
-- metadata limit, ContentList::encode makes bytes that from_bytes accepts, and the list read
-- back contains exactly the given hashes.
pub list_from_bytes-list_encode :
    (hs : List (List ℕ))
    → All IsHash hs
    → length hs * 32 ≤ max_metadata_bytes
    → (list : ContentList) × (list_from_bytes (list_encode hs) ≡ ok list)
      × ((hash : List ℕ) → (contains list hash ≡ true) ↔ Any (λ h. h ≡ hash) hs)
unfolding list_encode iter
list_from_bytes-list_encode hs a small =
    let list : ContentList = record { bytes = list_encode hs } in
    let accepted : list_from_bytes (list_encode hs) ≡ ok list =
      (list_from_bytes_iff _ _).1 (list_encode-IsContent hs a small, refl) in
    let pieces : iter list ≡ canonical hs =
      chunks_exact-concat_hashes (canonical hs) (canonical-All hs a) in
    (
      list,
      accepted,
      λ hash.
          let (to, from) = contains_iff (list_encode hs) list hash accepted in
          let (sorted, unsorted) = sort_hashes-Any (λ h. h ≡ hash) hs in
          let (distinct, repeated) = dedup-Any (λ h. h ≡ hash) (sort_hashes hs) in
          (
            λ e. unsorted (repeated (subst (λ l. Any (λ h. h ≡ hash) l) pieces (to e))),
            λ m. from (subst (λ l. Any (λ h. h ≡ hash) l) (sym pieces) (distinct (sorted m))),
          ),
    )
