-- ===== src/Repo/Tar/Reader/Blocks.antt =====
-- What the readers of entry data consume and count.
use bobr.Base.{
  ℕ, zero, suc, ◌+◌, ◌-◌, ◌%◌, ◌≤◌, ◌<◌, ◌^◌, ◌≡◌, refl, sym, ap, ◌∙◌, subst, true, List, [], ◌∷◌,
  ◌++◌, length, take, drop, all, All, length-take, take-append-drop, ltb, leb, ◌==◌, ==_iff,
  if◌then◌else◌, ok, err, ◌>>=◌, >>=-eq-ok, inl, inr, Bool-cases, arith,
}
use bobr.Repo.Error.{tar_nonzero_padding}
use bobr.Repo.Tar.Reader.{
  block, Reader, read_exact, add_decoded, padding_loop, padding, read_padding, read_entry_bytes,
  copy_exact, copy_entry_bytes,
}

-- From `r` to `r'` the data was consumed, and `n` was counted.
pub record Consumed (r r' : Reader) (bytes : List ℕ) (n : ℕ) : Type 0 where
  pub input : r.input ≡ bytes ++ r'.input
  pub decoded : r'.decoded ≡ r.decoded + n

-- The bytes taken are `n` bytes at the front.
pub read_exact-Consumed :
    (n : ℕ) (r : Reader) (state : List ℕ × Reader)
    → read_exact n r ≡ ok state
    → (length state.0 ≡ n) × Consumed r state.1 state.0 0
unfolding read_exact
read_exact-Consumed n r state e = elim (Bool-cases (leb n (length r.input))) [
  | inr f ↦ absurd (cc (rw f at e))
  | inl t ↦
      let same : (take n r.input, record r { input = drop n r.input }) ≡ state = cc (rw t at e) in
      subst (λ (s : List ℕ × Reader). (length s.0 ≡ n) × Consumed r s.1 s.0 0) same
        (
          length-take n r.input (ground arith),
          record { input = sym (take-append-drop n r.input); decoded = omega arith },
        )
]

pub copy_exact-Consumed :
    (n : ℕ) (r : Reader) (state : List ℕ × Reader)
    → copy_exact n r ≡ ok state
    → (length state.0 ≡ n) × Consumed r state.1 state.0 0
unfolding copy_exact
copy_exact-Consumed n r state e = elim (Bool-cases (leb n (length r.input))) [
  | inr f ↦ absurd (cc (rw f at e))
  | inl t ↦
      let same : (take n r.input, record r { input = drop n r.input }) ≡ state = cc (rw t at e) in
      subst (λ (s : List ℕ × Reader). (length s.0 ≡ n) × Consumed r s.1 s.0 0) same
        (
          length-take n r.input (ground arith),
          record { input = sym (take-append-drop n r.input); decoded = omega arith },
        )
]

pub add_decoded-Consumed : (n : ℕ) (r r' : Reader) → add_decoded n r ≡ ok r' → Consumed r r' [] n
unfolding add_decoded
add_decoded-Consumed n r r' e = elim (Bool-cases (ltb (r.decoded + n) (2 ^ 64))) [
  | inr f ↦ absurd (cc (rw f at e))
  | inl t ↦
      let same : record r { decoded = r.decoded + n } ≡ r' = cc (rw t at e) in
      subst (λ s. Consumed r s [] n) same (record { input = refl; decoded = refl })
]

All-of_all : (bs : List ℕ) → all (λ byte. byte == 0) bs ≡ true → All (λ b. b ≡ 0) bs
All-of_all [] h = tt
All-of_all (b ∷ bs) h = elim (Bool-cases (b == 0)) [
  | inr f ↦ absurd (cc (rw f at h))
  | inl t ↦ ((==_iff b 0).0 t, All-of_all bs (rw t at h))
]

padding_loop-zero : (fuel : ℕ) (r : Reader) → padding_loop fuel 0 r ≡ ok r
unfolding padding_loop
padding_loop-zero zero r = refl
padding_loop-zero (suc fuel) r = refl

-- At most one block of padding: the loop reads all of it in a round.
padding_loop-one :
    (n : ℕ) (r : Reader)
    → suc n < block
    → padding_loop (suc n) (suc n) r ≡ (
        read_exact (suc n) r >>= λ state.
        if all (λ byte. byte == 0) state.0 then ok state.1 else err tar_nonzero_padding)
unfolding padding_loop
padding_loop-one n r small =
    let start : ltb 0 (suc n) ≡ true = ground arith in
    let one_round : leb (suc n) block ≡ true = ground (arith, small) in
    let left : suc n - suc n ≡ 0 = omega arith in
    rw (start, one_round, left) (λ i. read_exact (suc n) r >>= λ state. rest state i)
  where
    rest :
        (state : List ℕ × Reader)
        → (if all (λ byte. byte == 0) state.0
            then padding_loop n 0 state.1
            else err tar_nonzero_padding)
          ≡ (if all (λ byte. byte == 0) state.0 then ok state.1 else err tar_nonzero_padding)
    rest state = rw (padding_loop-zero n state.1)

padding_loop-Consumed :
    (remaining : ℕ) (r r' : Reader)
    → remaining < block
    → padding_loop remaining remaining r ≡ ok r'
    → (pad : List ℕ) × (length pad ≡ remaining) × All (λ b. b ≡ 0) pad × Consumed r r' pad 0
padding_loop-Consumed zero r r' small e =
    let same : r ≡ r' = cc (padding_loop-zero 0 r, e) in
    (
      [],
      refl,
      tt,
      subst (λ s. Consumed r s [] 0) same (record { input = refl; decoded = omega arith }),
    )
padding_loop-Consumed (suc n) r r' small e =
    let (state, run, rest) =
      >>=-eq-ok (read_exact (suc n) r) _ (sym (padding_loop-one n r small) ∙ e) in
    let (count, taken) = read_exact-Consumed (suc n) r state run in
    elim (Bool-cases (all (λ byte. byte == 0) state.0)) [
      | inr f ↦ absurd (cc (rw f at rest))
      | inl t ↦
          let same : state.1 ≡ r' = cc (rw t at rest) in
          (state.0, count, All-of_all state.0 t, subst (λ s. Consumed r s state.0 0) same taken)
    ]

abbrev pub IsPadding : ℕ → List ℕ → Type 0
IsPadding size pad = (length pad ≡ padding size) × All (λ b. b ≡ 0) pad

pub read_padding-Consumed :
    (size : ℕ) (r r' : Reader)
    → read_padding size r ≡ ok r'
    → (pad : List ℕ) × IsPadding size pad × Consumed r r' pad (padding size)
unfolding read_padding
read_padding-Consumed size r r' e =
    let (s, run, last) = >>=-eq-ok (padding_loop (padding size) (padding size) r) _ e in
    let (pad, count, empty, taken) = padding_loop-Consumed (padding size) r s (omega arith) run in
    let counted = add_decoded-Consumed (padding size) s r' last in
    (
      pad,
      (count, empty),
      record {
        input = taken.input ∙ ap (λ l. pad ++ l) counted.input;
        decoded = counted.decoded ∙ omega (arith, taken.decoded);
      },
    )

-- What reading an entry of `size` bytes does.
pub record IsEntry (size : ℕ) (bytes : List ℕ) (r r' : Reader) : Type 0 where
  pub data_size : length bytes ≡ size
  pub pad : List ℕ
  pub zeros : IsPadding size pad
  pub input : r.input ≡ bytes ++ (pad ++ r'.input)
  pub decoded : r'.decoded ≡ r.decoded + (size + padding size)
  pub blocks : (size + padding size) % block ≡ 0

entry-blocks : (size : ℕ) → (size + padding size) % block ≡ 0
entry-blocks size = omega arith

-- When read_entry_bytes succeeds, the size is within the limit, it has consumed the data, of the
-- size given, and then zeros up to a whole number of 512-byte blocks, returned the data, and
-- added the number of bytes consumed to the counter.
pub read_entry_bytes-IsEntry :
    (size limit : ℕ) (r r' : Reader) (bytes : List ℕ)
    → read_entry_bytes size limit r ≡ ok (bytes, r')
    → (size ≤ limit) × IsEntry size bytes r r'
unfolding read_entry_bytes
read_entry_bytes-IsEntry size limit r r' bytes e = elim (Bool-cases (ltb limit size)) [
  | inl t ↦ absurd (cc (rw t at e))
  | inr f ↦
      let (state, run, e1) = >>=-eq-ok (read_exact size r) _ (rw f at e) in
      let (s, pads, e2) = >>=-eq-ok (read_padding size state.1) _ e1 in
      let (t, adds, last) = >>=-eq-ok (add_decoded size s) _ e2 in
      let (count, taken) = read_exact-Consumed size r state run in
      let (pad, zeros, padded) = read_padding-Consumed size state.1 s pads in
      let counted = add_decoded-Consumed size s t adds in
      let same_bytes : state.0 ≡ bytes = cc last in
      let same_reader : t ≡ r' = cc last in
      let entry : IsEntry size state.0 r t = record {
        data_size = count;
        pad = pad;
        zeros = zeros;
        input =
            taken.input ∙ ap (λ l. state.0 ++ l) (padded.input ∙ ap (λ l. pad ++ l) counted.input);
        decoded = counted.decoded ∙ omega (arith, padded.decoded, taken.decoded);
        blocks = entry-blocks size;
      } in
      (
        ground arith,
        subst (λ b. IsEntry size b r r') same_bytes
            (subst (λ w. IsEntry size state.0 r w) same_reader entry),
      )
]

-- When copy_entry_bytes succeeds, it has consumed the data, of the size given, and then zeros up
-- to a whole number of 512-byte blocks, returned the data, and added the number of bytes
-- consumed to the counter.
pub copy_entry_bytes-IsEntry :
    (size : ℕ) (r r' : Reader) (bytes : List ℕ)
    → copy_entry_bytes size r ≡ ok (bytes, r')
    → IsEntry size bytes r r'
unfolding copy_entry_bytes
copy_entry_bytes-IsEntry size r r' bytes e =
    let (state, run, e1) = >>=-eq-ok (copy_exact size r) _ e in
    let (s, adds, e2) = >>=-eq-ok (add_decoded size state.1) _ e1 in
    let (t, pads, last) = >>=-eq-ok (read_padding size s) _ e2 in
    let (count, taken) = copy_exact-Consumed size r state run in
    let counted = add_decoded-Consumed size state.1 s adds in
    let (pad, zeros, padded) = read_padding-Consumed size s t pads in
    let same_bytes : state.0 ≡ bytes = cc last in
    let same_reader : t ≡ r' = cc last in
    let entry : IsEntry size state.0 r t = record {
      data_size = count;
      pad = pad;
      zeros = zeros;
      input = taken.input ∙ ap (λ l. state.0 ++ l) (counted.input ∙ padded.input);
      decoded = padded.decoded ∙ omega (arith, counted.decoded, taken.decoded);
      blocks = entry-blocks size;
    } in
    subst (λ b. IsEntry size b r r') same_bytes
      (subst (λ w. IsEntry size state.0 r w) same_reader entry)
