-- ===== src/Base/Chunks.antt =====
-- `chunks_exact` and the slices that make the same pieces.
use bobr.Base.Lists.{length, take, drop, get_elem?}
use Prim.Native.Nat.{ℕ, zero, suc, ◌+◌, ◌*◌, ◌/◌, ◌<◌}
use mathlib.Core.Path.{◌≡◌, refl, sym, ap, ◌∙◌}
use mathlib.Core.Option.{some}
use mathlib.Core.List.{List, [], ◌∷◌}
use native.Mathlib.Nat.{zero-mul, zero-add, suc-add}
use native.Mathlib.Omega.{arith}

module _ {ℓ} {A : Type ℓ} where
  -- The first `n` pieces of `size` items.
  abbrev pub chunks : ℕ → ℕ → List A → List (List A)
  chunks zero size xs = []
  chunks (suc n) size xs = take size xs ∷ chunks n size (drop size xs)

  -- `xs.chunks_exact(size)`: what is left over at the end is not returned.
  abbrev pub chunks_exact : ℕ → List A → List (List A)
  chunks_exact size xs = chunks (length xs / size) size xs

  -- `&xs[index * size..index * size + size]`.
  abbrev pub slice_at : ℕ → List A → ℕ → List A
  slice_at size xs index = take size (drop (index * size) xs)

  pub length-chunks : (n size : ℕ) (xs : List A) → length (chunks n size xs) ≡ n
  length-chunks zero size xs = refl
  length-chunks (suc n) size xs = ap suc (length-chunks n size (drop size xs))

  drop-nil : (n : ℕ) → drop {A = A} n [] ≡ []
  drop-nil zero = refl
  drop-nil (suc n) = refl

  pub drop-drop : (n m k : ℕ) (xs : List A) → n + m ≡ k → drop m (drop n xs) ≡ drop k xs
  drop-drop zero m k xs e = let same : m ≡ k = omega arith in ap (λ i. drop i xs) same
  drop-drop (suc n) m k [] e = drop-nil m ∙ sym (drop-nil k)
  drop-drop (suc n) m zero (x ∷ xs) e = absurd (omega arith)
  drop-drop (suc n) m (suc k) (x ∷ xs) e = drop-drop n m k xs (omega arith)

  -- Piece `i` is slice `i`.
  pub get_elem?-chunks :
      (n size : ℕ) (xs : List A) (i : ℕ)
      → i < n
      → get_elem? (chunks n size xs) i ≡ some (slice_at size xs i)
  get_elem?-chunks zero size xs i h = absurd (omega arith)
  get_elem?-chunks (suc n) size xs zero h = rw zero-mul
  get_elem?-chunks (suc n) size xs (suc i) h =
      get_elem?-chunks n size (drop size xs) i (omega arith)
      ∙ ap (λ l. some (take size l)) (drop-drop size (i * size) (suc i * size) xs (omega arith))

  -- The pieces behind the first `k`.
  pub chunks-drop :
      (k n size : ℕ) (xs : List A)
      → chunks n size (drop (k * size) xs) ≡ drop k (chunks (k + n) size xs)
  chunks-drop zero n size xs = rw (zero-mul, zero-add)
  chunks-drop (suc k) n size xs =
      ap (chunks n size) (sym (drop-drop size (k * size) (suc k * size) xs (omega arith)))
      ∙ chunks-drop k n size (drop size xs)
      ∙ rw suc-add
