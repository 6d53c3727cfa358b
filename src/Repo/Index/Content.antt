-- ===== src/Repo/Index/Content.antt =====
-- Content lists: `ContentList::from_bytes`.
use bobr.Base.{
  ℕ, ◌%◌, ◌≤◌, ◌≡◌, refl, ◌↔◌, inl, inr, false, Option, none, some, List, [], ◌∷◌, length, All, ltb,
  ◌==◌, ==_iff, ok, >>=-eq-ok, Bool-cases, arith,
}
use bobr.Base.Order.{cmp, ◌≺◌, is_le, ≺_trans, gt_iff_lt, lt_iff_gt}
use bobr.Base.Chunks.{chunks_exact}
use bobr.Repo.Index.{
  ContentList, check_metadata_size, max_metadata_bytes, check_hashes, list_from_bytes,
}

abbrev pub Increasing : List (List ℕ) → Type 0
Increasing [] = Unit
Increasing (h ∷ hs) = All (λ k. h ≺ k) hs × Increasing hs

abbrev Above : Option (List ℕ) → List (List ℕ) → Type 0
Above none hs = Unit
Above (some previous) hs = All (λ k. previous ≺ k) hs

pub All-≺_trans :
    (a b : List ℕ) (hs : List (List ℕ)) → a ≺ b → All (λ k. b ≺ k) hs → All (λ k. a ≺ k) hs
All-≺_trans a b [] h k = tt
All-≺_trans a b (x ∷ hs) h k = (≺_trans a b x h k.0, All-≺_trans a b hs h k.1)

not_le-≺ : (a b : List ℕ) → is_le (cmp a b) ≡ false → b ≺ a
not_le-≺ a b e = gt_iff_lt a b (ground arith)

≺-not_le : (a b : List ℕ) → b ≺ a → is_le (cmp a b) ≡ false
≺-not_le a b h = rw (lt_iff_gt b a h)

check_hashes_sound :
    (previous : Option (List ℕ)) (hs : List (List ℕ))
    → check_hashes previous hs ≡ ok tt
    → Above previous hs × Increasing hs
unfolding check_hashes
check_hashes_sound none [] e = (tt, tt)
check_hashes_sound (some p) [] e = (tt, tt)
check_hashes_sound none (h ∷ hs) e = (tt, check_hashes_sound (some h) hs e)
check_hashes_sound (some p) (h ∷ hs) e = elim (Bool-cases (is_le (cmp h p))) [
  | inl t ↦ absurd (cc (rw t at e))
  | inr f ↦
      let (above, increasing) = check_hashes_sound (some h) hs (rw f at e) in
      let lt = not_le-≺ h p f in ((lt, All-≺_trans p h hs lt above), (above, increasing))
]

check_hashes_complete :
    (previous : Option (List ℕ)) (hs : List (List ℕ))
    → Above previous hs
    → Increasing hs
    → check_hashes previous hs ≡ ok tt
unfolding check_hashes
check_hashes_complete none [] a i = refl
check_hashes_complete (some p) [] a i = refl
check_hashes_complete none (h ∷ hs) a i = check_hashes_complete (some h) hs i.0 i.1
check_hashes_complete (some p) (h ∷ hs) a i =
    rw (≺-not_le h p a.0) (check_hashes_complete (some h) hs i.0 i.1)

-- The bytes of a content list: within the size limit, whole hashes, strictly increasing.
pub record IsContent (bytes : List ℕ) : Type 0 where
  pub size : length bytes ≤ max_metadata_bytes
  pub whole : length bytes % 32 ≡ 0
  pub increasing : Increasing (chunks_exact 32 bytes)

from_bytes_sound :
    (bytes : List ℕ) (list : ContentList)
    → list_from_bytes bytes ≡ ok list
    → IsContent bytes × (list.bytes ≡ bytes)
unfolding list_from_bytes check_metadata_size
from_bytes_sound bytes list e = elim (Bool-cases (ltb max_metadata_bytes (length bytes))) [
  | inl t ↦ absurd (cc (rw t at e))
  | inr f ↦ elim (Bool-cases (length bytes % 32 == 0)) [
    | inr g ↦ absurd (cc (rw (f, g) at e))
    | inl t ↦
        let (_, run, last) =
          >>=-eq-ok (check_hashes none (chunks_exact 32 bytes)) _ (rw (f, t) at e) in
        let (_, increasing) = check_hashes_sound none (chunks_exact 32 bytes) run in
        (record { size = ground arith; whole = (==_iff _ 0).0 t; increasing = increasing }, cc last)
  ]
]

from_bytes_complete :
    (bytes : List ℕ) → IsContent bytes → list_from_bytes bytes ≡ ok (record { bytes = bytes })
unfolding list_from_bytes check_metadata_size
from_bytes_complete bytes h =
    let small : ltb max_metadata_bytes (length bytes) ≡ false = ground (arith, h.size) in
    rw (
      small,
      (==_iff (length bytes % 32) 0).1 h.whole,
      check_hashes_complete none (chunks_exact 32 bytes) tt h.increasing,
    )

-- ContentList::from_bytes accepts exactly the byte strings within the limit that are whole
-- 32-byte hashes in strictly increasing order, and keeps the bytes.
pub list_from_bytes_iff :
    (bytes : List ℕ) (list : ContentList)
    → (list_from_bytes bytes ≡ ok list) ↔ (IsContent bytes × (list.bytes ≡ bytes))
list_from_bytes_iff bytes list =
    (from_bytes_sound bytes list, λ h. rw h.1 (from_bytes_complete bytes h.0))
