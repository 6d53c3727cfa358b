-- ===== src/Repo/Cbor/Canonical.antt =====
-- What each method of `Decoder` has consumed when it succeeded.
use bobr.Base.{
  ℕ, ◌+◌, ◌*◌, ◌/◌, ◌%◌, ◌^◌, ◌<◌, bit_and, ◌≡◌, refl, sym, ◌∙◌, true, false, Option, none, some,
  List, [], ◌∷◌, ◌++◌, length, append-nil, ok, ltb, leb, ==_iff, ◌==◌, All, if◌then◌else◌, not,
  Bool-cases, inl, inr, arith,
}
use bobr.Base.Bytes.{
  IsByte, IsU64, to_be_bytes, from_be_bytes, to_be_bytes-from_be_bytes, from_be_bytes-lt,
  bit_and_0x1f,
}
use bobr.Base.Utf8.{is_utf8}
use bobr.Repo.Error.{
  Expected, non_shortest, expected_cbor, text_not_utf8, indefinite_length, reserved_additional,
}
use bobr.Repo.Cbor.Decode
use bobr.Repo.Cbor.Decode.{
  Decoder, M, ◌>>=◌, ◌>>◌, pure, fail, lift, continue, byte, peek, take_bytes, take_array, advance,
  long_value, head_value,
}
use bobr.Repo.Cbor.Reads.{at, peek-nil, peek-cons, advance-cons}
use bobr.Repo.Cbor.Accepts.{
  Accepts, Consumed, IsTaken, Accepts-bind, Accepts-fail, Accepts-if, Accepts-weaken,
  Accepts-return, Accepts-byte, Accepts-take_bytes, Accepts-take_array,
}
use bobr.Repo.Cbor.Head.{info, argument, head_bytes}
use bobr.Repo.Cbor.RoundTrip.{uint_bytes, bytes_bytes, text_bytes}

Accepts-long_value :
    (n limit : ℕ)
    → Accepts
        (long_value n limit)
        (λ v bs. (leb v limit ≡ false) × (bs ≡ to_be_bytes n v) × (v < 256 ^ n))
unfolding long_value
Accepts-long_value n limit =
    Accepts-bind _
      (λ a v bs. (leb (from_be_bytes a) limit ≡ false) × (v ≡ from_be_bytes a) × (bs ≡ []))
      (Accepts-take_array n)
      (λ a.
        Accepts-if (leb (from_be_bytes a) limit) (λ _. Accepts-fail non_shortest)
          (λ t. Accepts-return (from_be_bytes a) (t, refl, refl)))
      (λ a v bs cs q r. (
        rw r.1 r.0,
        rw (r.2, append-nil, r.1) (q.0 ∙ sym (to_be_bytes-from_be_bytes n a q.1 q.3)),
        rw r.1 (from_be_bytes-lt n a q.1 q.3),
      ))

abbrev IsArgument : ℕ → ℕ → List ℕ → Type 0
IsArgument additional v bs = (info v ≡ additional) × (bs ≡ argument v) × IsU64 v

one_byte-IsArgument : (v : ℕ) → ltb v 24 ≡ false → v < 256 → IsArgument 24 v (v ∷ [])
one_byte-IsArgument v t h =
    let a : leb v 23 ≡ false = ground arith in
    let b : leb v 0xff ≡ true = ground arith in (rw (a, b), rw (a, b), omega arith)

two_byte-IsArgument : (v : ℕ) → leb v 0xff ≡ false → v < 256 ^ 2 → IsArgument 25 v (to_be_bytes 2 v)
two_byte-IsArgument v t h =
    let a : leb v 23 ≡ false = ground arith in
    let c : leb v 0xffff ≡ true = ground arith in (rw (a, t, c), rw (a, t, c), omega arith)

four_byte-IsArgument :
    (v : ℕ) → leb v 0xffff ≡ false → v < 256 ^ 4 → IsArgument 26 v (to_be_bytes 4 v)
four_byte-IsArgument v t h =
    let a : leb v 23 ≡ false = ground arith in
    let b : leb v 0xff ≡ false = ground arith in
    let d : leb v 0xffffffff ≡ true = ground arith in
    (rw (a, b, t, d), rw (a, b, t, d), omega arith)

eight_byte-IsArgument :
    (v : ℕ) → leb v 0xffffffff ≡ false → v < 256 ^ 8 → IsArgument 27 v (to_be_bytes 8 v)
eight_byte-IsArgument v t h =
    let a : leb v 23 ≡ false = ground arith in
    let b : leb v 0xff ≡ false = ground arith in
    let c : leb v 0xffff ≡ false = ground arith in (rw (a, b, c, t), rw (a, b, c, t), omega arith)

Accepts-one_byte :
    Accepts
      (do value ← byte; if ltb value 24 then fail non_shortest else pure value)
      (IsArgument 24)
Accepts-one_byte =
    Accepts-bind _ (λ b v bs. (ltb b 24 ≡ false) × (v ≡ b) × (bs ≡ [])) Accepts-byte
      (λ b.
        Accepts-if (ltb b 24) (λ _. Accepts-fail non_shortest)
          (λ t. Accepts-return b (t, refl, refl)))
      (λ b v bs cs q r.
        rw (r.2, append-nil, q.0) (rw (← r.1) (one_byte-IsArgument v (rw r.1 r.0) (rw r.1 q.1))))

Accepts-word :
    (n limit additional : ℕ)
    → ((v : ℕ) → leb v limit ≡ false → v < 256 ^ n → IsArgument additional v (to_be_bytes n v))
    → Accepts (long_value n limit) (IsArgument additional)
Accepts-word n limit additional h =
    Accepts-weaken _ (λ v bs q. rw q.1 (h v q.0 q.2)) (Accepts-long_value n limit)

-- A branch of the match on the additional information.
Accepts-branch :
    (additional k : ℕ) {m n : M ℕ}
    → Accepts m (IsArgument k)
    → ((additional == k) ≡ false → Accepts n (IsArgument additional))
    → Accepts (if additional == k then m else n) (IsArgument additional)
Accepts-branch additional k hm hn =
    Accepts-if (additional == k) (λ t. rw ((==_iff additional k).0 t) hm) hn

Accepts-head_value : (additional : ℕ) → Accepts (head_value additional) (IsArgument additional)
unfolding head_value
Accepts-head_value additional =
    Accepts-if (leb additional 23) (λ t. Accepts-return additional (rw t, rw t, ground arith))
      λ a. Accepts-branch additional 24 Accepts-one_byte λ b.
        Accepts-branch additional 25 (Accepts-word 2 0xff 25 two_byte-IsArgument) λ c.
          Accepts-branch additional 26 (Accepts-word 4 0xffff 26 four_byte-IsArgument) λ d.
            Accepts-branch additional 27 (Accepts-word 8 0xffffffff 27 eight_byte-IsArgument) λ e.
              Accepts-if (additional == 31) (λ _. Accepts-fail indefinite_length)
                (λ _. Accepts-fail reserved_additional)

head_lem :
    (b major v : ℕ) (cs : List ℕ)
    → IsByte b
    → b / 32 ≡ major
    → IsArgument (bit_and b 0x1f) v cs
    → (b ∷ cs ≡ head_bytes major v) × IsU64 v
unfolding head_bytes
head_lem b major v cs h e r =
    let low : info v ≡ b % 32 = r.0 ∙ bit_and_0x1f b h in
    let first : major * 32 + info v ≡ b = omega arith in (rw (first, r.1), r.2)

pub Accepts-head :
    (major : ℕ) (expected : Expected)
    → Accepts (Decode.head major expected) (λ v bs. (bs ≡ head_bytes major v) × IsU64 v)
unfolding Decode.head head_bytes
Accepts-head major expected =
    Accepts-bind _ (λ b v bs. (b / 32 ≡ major) × IsArgument (bit_and b 0x1f) v bs) Accepts-byte
      (λ b.
        Accepts-if (not (b / 32 == major)) (λ _. Accepts-fail (expected_cbor expected))
          (λ t.
            Accepts-weaken (IsArgument (bit_and b 0x1f)) (λ v bs q. (ground arith, q))
              (Accepts-head_value (bit_and b 0x1f))))
      (λ b v bs cs q r. rw q.0 (head_lem b major v cs q.1 r.0 r.1))

-- A definite-length string: the head and then that many bytes.
string_lem :
    (major n : ℕ) (v bs : List ℕ)
    → length v ≡ n
    → bs ≡ head_bytes major n
    → bs ++ v ≡ head_bytes major (length v) ++ v
string_lem major n v bs e h = rw (e, h)

abbrev pub IsUintItem : ℕ → List ℕ → Type 0
IsUintItem v bs = (bs ≡ uint_bytes v) × IsU64 v

pub Accepts-uint : Accepts Decode.uint IsUintItem
unfolding Decode.uint
Accepts-uint = Accepts-head 0 Expected.unsigned_integer

pub Accepts-array : Accepts Decode.array (λ v bs. (bs ≡ head_bytes 4 v) × IsU64 v)
unfolding Decode.array
Accepts-array = Accepts-head 4 Expected.array

pub Accepts-map : Accepts Decode.map (λ v bs. (bs ≡ head_bytes 5 v) × IsU64 v)
unfolding Decode.map
Accepts-map = Accepts-head 5 Expected.map

abbrev pub IsBytesItem : List ℕ → List ℕ → Type 0
IsBytesItem v bs = (bs ≡ bytes_bytes v) × IsU64 (length v) × All IsByte v

pub Accepts-bytes : Accepts Decode.bytes IsBytesItem
unfolding Decode.bytes
Accepts-bytes =
    Accepts-bind take_bytes IsTaken (Accepts-head 2 Expected.byte_string) Accepts-take_bytes
      (λ n v bs cs q r. (rw r.0 (string_lem 2 n v bs r.1 q.0), rw r.1 q.1, r.3))

abbrev pub IsTextItem : List ℕ → List ℕ → Type 0
IsTextItem v bs = (bs ≡ text_bytes v) × IsU64 (length v) × (is_utf8 v ≡ true) × All IsByte v

pub Accepts-text : Accepts Decode.text IsTextItem
unfolding Decode.text
Accepts-text =
    Accepts-bind _ (λ n v bs. (bs ≡ v) × (length v ≡ n) × (is_utf8 v ≡ true) × All IsByte v)
      (Accepts-head 3 Expected.text_string)
      (λ n.
        Accepts-bind _ (λ v w bs. (w ≡ v) × (is_utf8 v ≡ true) × (bs ≡ [])) (Accepts-take_bytes n)
          (λ v.
            Accepts-if (is_utf8 v) (λ t. Accepts-return v (refl, t, refl))
              (λ _. Accepts-fail text_not_utf8))
          (λ v w bs cs q r. (rw (r.2, append-nil, r.0) q.0, rw r.0 q.1, rw r.0 r.1, rw r.0 q.3)))
      (λ n v bs cs q r. (rw r.0 (string_lem 3 n v bs r.1 q.0), rw r.1 q.1, r.2, r.3))

abbrev pub IsNullOr : {A : Type 0} → (A → List ℕ → Type 0) → Option A → List ℕ → Type 0
IsNullOr Q none bs = bs ≡ 0xf6 ∷ []
IsNullOr Q (some v) bs = Q v bs

-- `peek` and then `advance 1` consume the byte that was seen.
module _ {A : Type 0} (m : M A) (Q : A → List ℕ → Type 0) (hm : Accepts m Q) where
  abbrev null_or_run : M (Option A)
  null_or_run = do
    b ← peek
    if b == 0xf6 then (do advance 1; pure none) else (do x ← m; pure (some x))

  some_run : Accepts (do x ← m; pure (some x)) (IsNullOr Q)
  some_run =
      Accepts-bind _ (λ v w bs. (w ≡ some v) × (bs ≡ [])) hm
        (λ v. Accepts-return (some v) (refl, refl)) (λ v w bs cs q r. rw (r.1, append-nil, r.0) q)

  null_or_lem :
      (pre whole : List ℕ) (o : Option A) (d' : Decoder)
      → All IsByte whole
      → null_or_run (at pre whole) ≡ ok (o, d')
      → Consumed pre whole d' (IsNullOr Q o)
  null_or_lem pre [] o d' bytes e = absurd (cc (rw (peek-nil pre) at e))
  null_or_lem pre (x ∷ rest) o d' bytes e = elim (Bool-cases (x == 0xf6)) [
    | inl t ↦
        let run = rw (peek-cons pre x rest, t, advance-cons pre x rest) at e in
        let none_read : o ≡ none = cc run in
        let first : x ≡ 0xf6 = (==_iff x 0xf6).0 t in
        (x ∷ [], rest, refl, cc run, rw (none_read, first) refl)
    | inr f ↦ some_run.run pre (x ∷ rest) o d' bytes (rw (peek-cons pre x rest, f) at e)
  ]

  Accepts-IsNullOr : Accepts null_or_run (IsNullOr Q)
  Accepts-IsNullOr = record { run = null_or_lem }

pub Accepts-null_or_uint : Accepts Decode.null_or_uint (IsNullOr IsUintItem)
unfolding Decode.null_or_uint
Accepts-null_or_uint = Accepts-IsNullOr Decode.uint _ Accepts-uint

pub Accepts-null_or_bytes : Accepts Decode.null_or_bytes (IsNullOr IsBytesItem)
unfolding Decode.null_or_bytes
Accepts-null_or_bytes = Accepts-IsNullOr Decode.bytes _ Accepts-bytes
