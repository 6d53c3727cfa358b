-- ===== src/Base/Order.antt =====
-- The order of byte strings: `Ord::cmp` on slices and arrays of bytes, which is lexicographic.
use Prim.Native.Nat.{ℕ, compare, Ordering}
use mathlib.Core.Path.{◌≡◌, refl}
use mathlib.Core.Bool.{Bool, true, false}
use mathlib.Core.List.{List, [], ◌∷◌}
use native.Mathlib.Omega.{arith}

abbrev pub is_lt : Ordering → Bool
is_lt Ordering.lt = true
is_lt Ordering.eq = false
is_lt Ordering.gt = false

abbrev pub is_le : Ordering → Bool
is_le Ordering.lt = true
is_le Ordering.eq = true
is_le Ordering.gt = false

unfoldable pub cmp : List ℕ → List ℕ → Ordering
cmp [] [] = Ordering.eq
cmp [] (y ∷ ys) = Ordering.lt
cmp (x ∷ xs) [] = Ordering.gt
cmp (x ∷ xs) (y ∷ ys) = elim (compare x y) [
  | Ordering.lt ↦ Ordering.lt
  | Ordering.gt ↦ Ordering.gt
  | Ordering.eq ↦ cmp xs ys
]

infix 50 ◌≺◌
abbrev pub ◌≺◌ : List ℕ → List ℕ → Type 0
xs ≺ ys = cmp xs ys ≡ Ordering.lt

pub cmp_refl : (xs : List ℕ) → cmp xs xs ≡ Ordering.eq
unfolding cmp
cmp_refl [] = refl
cmp_refl (x ∷ xs) = ground (arith, cmp_refl xs)

pub eq_of_cmp : (xs ys : List ℕ) → cmp xs ys ≡ Ordering.eq → xs ≡ ys
unfolding cmp
eq_of_cmp [] [] h = refl
eq_of_cmp [] (y ∷ ys) h = absurd (cc h)
eq_of_cmp (x ∷ xs) [] h = absurd (cc h)
eq_of_cmp (x ∷ xs) (y ∷ ys) h = ground (arith, eq_of_cmp xs ys)

pub ≺_trans : (xs ys zs : List ℕ) → xs ≺ ys → ys ≺ zs → xs ≺ zs
unfolding cmp
≺_trans [] [] zs h k = absurd (cc h)
≺_trans [] (y ∷ ys) [] h k = absurd (cc k)
≺_trans [] (y ∷ ys) (z ∷ zs) h k = refl
≺_trans (x ∷ xs) [] zs h k = absurd (cc h)
≺_trans (x ∷ xs) (y ∷ ys) [] h k = absurd (cc k)
≺_trans (x ∷ xs) (y ∷ ys) (z ∷ zs) h k = ground (arith, ≺_trans xs ys zs)

-- `gt` is `lt` the other way round.
pub gt_iff_lt : (xs ys : List ℕ) → cmp xs ys ≡ Ordering.gt → ys ≺ xs
unfolding cmp
gt_iff_lt [] [] h = absurd (cc h)
gt_iff_lt [] (y ∷ ys) h = absurd (cc h)
gt_iff_lt (x ∷ xs) [] h = refl
gt_iff_lt (x ∷ xs) (y ∷ ys) h = ground (arith, gt_iff_lt xs ys)

pub lt_iff_gt : (xs ys : List ℕ) → xs ≺ ys → cmp ys xs ≡ Ordering.gt
unfolding cmp
lt_iff_gt [] [] h = absurd (cc h)
lt_iff_gt [] (y ∷ ys) h = refl
lt_iff_gt (x ∷ xs) [] h = absurd (cc h)
lt_iff_gt (x ∷ xs) (y ∷ ys) h = ground (arith, lt_iff_gt xs ys)

pub data Cmp (xs ys : List ℕ) : Type 0 where
  less : xs ≺ ys → Cmp xs ys
  equal : xs ≡ ys → cmp xs ys ≡ Ordering.eq → Cmp xs ys
  greater : ys ≺ xs → cmp xs ys ≡ Ordering.gt → Cmp xs ys

pub Cmp-cases : (xs ys : List ℕ) → Cmp xs ys
Cmp-cases xs ys = go (cmp xs ys) refl
  where
    go : (o : Ordering) → cmp xs ys ≡ o → Cmp xs ys
    go Ordering.lt e = less e
    go Ordering.eq e = equal (eq_of_cmp xs ys e) e
    go Ordering.gt e = greater (gt_iff_lt xs ys e) e
