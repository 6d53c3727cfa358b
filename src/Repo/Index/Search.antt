-- ===== src/Repo/Index/Search.antt =====
-- `lower_bound` over a comparison that is less on a front part of the range only.
use bobr.Base.{
  ℕ, zero, suc, ◌+◌, ◌-◌, ◌/◌, ◌≤◌, ◌<◌, ◌≡◌, ◌≢◌, true, false, Ordering, ltb, Bool-cases, inl, inr,
  arith,
}
use bobr.Base.Order.{is_lt}
use bobr.Repo.Index.{lower_bound_loop, lower_bound}

module _ (n : ℕ) (compare : ℕ → Ordering) where
  -- Whatever lies before a lesser index is less.
  abbrev pub IsSplit : Type 0
  IsSplit = (i j : ℕ) → i ≤ j → j < n → compare j ≡ Ordering.lt → compare i ≡ Ordering.lt

  -- `r` is where the lesser indices end.
  pub record IsBound (r : ℕ) : Type 0 where
    pub within : r ≤ n
    pub below : (i : ℕ) → i < r → compare i ≡ Ordering.lt
    pub above : (i : ℕ) → r ≤ i → i < n → compare i ≢ Ordering.lt

  lt-of_is_lt : (i : ℕ) → is_lt (compare i) ≡ true → compare i ≡ Ordering.lt
  lt-of_is_lt i e = ground arith

  not_lt-of_is_lt : (i : ℕ) → is_lt (compare i) ≡ false → compare i ≢ Ordering.lt
  not_lt-of_is_lt i e h = cc (rw h at e)

  loop-IsBound :
      IsSplit
      → (fuel base len : ℕ) → len ≤ fuel
      → base + len ≤ n
      → ((i : ℕ) → i < base → compare i ≡ Ordering.lt)
      → ((i : ℕ) → base + len ≤ i → i < n → compare i ≢ Ordering.lt)
      → IsBound (lower_bound_loop fuel base len compare)
  unfolding lower_bound_loop
  loop-IsBound split zero base len hf hn lo hi = record {
    within = omega arith;
    below = lo;
    above = λ i h. hi i (omega arith);
  }
  loop-IsBound split (suc fuel) base len hf hn lo hi = elim (Bool-cases (ltb 0 len)) [
    | inr e ↦ rw e (record { within = omega arith; below = lo; above = λ i h. hi i (ground arith) })
    | inl e ↦ elim (Bool-cases (is_lt (compare (base + len / 2)))) [
      | inl t ↦
          rw (e, t)
            (loop-IsBound split fuel (base + len / 2 + 1) (len - (len / 2 + 1)) (ground arith)
              (ground arith)
              (λ i h. split i (base + len / 2) (omega arith) (ground arith) (lt-of_is_lt _ t))
              (λ i h. hi i (ground arith)))
      | inr f ↦
          rw (e, f)
            (loop-IsBound split fuel base (len / 2) (ground arith) (omega arith) lo
              (λ i h k c. not_lt-of_is_lt _ f (split (base + len / 2) i h k c)))
    ]
  ]

  -- For a comparison that is less on a front part of the positions only, lower_bound returns the
  -- position where the lesser ones end, at most the length.
  pub lower_bound-IsBound : IsSplit → IsBound (lower_bound n compare)
  unfolding lower_bound
  lower_bound-IsBound split =
      loop-IsBound split n 0 n (omega arith) (omega arith) (λ i h. absurd (omega arith))
        (λ i h k. absurd (omega arith))
