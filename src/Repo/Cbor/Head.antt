-- ===== src/Repo/Cbor/Head.antt =====
-- The initial byte and the argument of a CBOR item, in plain arithmetic.
use bobr.Base.{
  ℕ, ◌+◌, ◌*◌, ◌/◌, ◌%◌, ◌^◌, ◌<◌, bit_or, ◌≡◌, refl, true, false, List, [], ◌∷◌, ◌++◌, ltb, leb,
  if◌then◌else◌, ==_iff, Bool-cases, inl, inr, append_assoc, arith,
}
use bobr.Base.Bytes.{
  IsU64, to_be_bytes, from_be_bytes-to_be_bytes, length-to_be_bytes, bit_or_head, bit_and_0x1f,
}
use bobr.Repo.Error.{Expected}
use bobr.Repo.Cbor.Encode
use bobr.Repo.Cbor.Encode.{Encoder, extend}
use bobr.Repo.Cbor.Decode.{M, pure, fail, continue, ◌>>=◌, byte, take_array, long_value, head_value}
use bobr.Repo.Cbor.Decode
use bobr.Repo.Cbor.Reads.{Reads, Reads-bind, Reads-then, Reads-pure, Reads-byte, Reads-take_array}

-- The additional information of the initial byte, and the bytes that follow it.
abbrev pub info : ℕ → ℕ
info value =
    if leb value 23
    then value
    else if leb value 0xff
    then 24
    else if leb value 0xffff
    then 25
    else if leb value 0xffffffff
    then 26
    else 27

abbrev pub argument : ℕ → List ℕ
argument value =
    if leb value 23
    then []
    else if leb value 0xff
    then value ∷ []
    else if leb value 0xffff
    then to_be_bytes 2 value
    else if leb value 0xffffffff
    then to_be_bytes 4 value
    else to_be_bytes 8 value

unfoldable pub head_bytes : ℕ → ℕ → List ℕ
head_bytes major value = (major * 32 + info value) ∷ argument value

pub info_lt : (value : ℕ) → info value < 32
info_lt value = ground arith

pub extend-extend : (xs ys : List ℕ) (e : Encoder) → extend ys (extend xs e) ≡ extend (xs ++ ys) e
unfolding extend
extend-extend xs ys e = rw (append_assoc e.bytes xs ys)

prefix_lem :
    (major low : ℕ) → major < 8 → low < 32 → bit_or (major * 32 % 256) low ≡ major * 32 + low
prefix_lem major low hm hl =
    let e : major * 32 % 256 ≡ major * 32 = omega arith in rw e (bit_or_head major low hm hl)

-- The five sizes of an argument, as the tests that the code makes.
pub data Width (value : ℕ) : Type 0 where
  immediate : leb value 23 ≡ true → Width value
  one_byte : leb value 23 ≡ false → leb value 0xff ≡ true → Width value
  two_bytes : leb value 23 ≡ false → leb value 0xff ≡ false → leb value 0xffff ≡ true → Width value
  four_bytes :
      leb value 23 ≡ false
      → leb value 0xff ≡ false
      → leb value 0xffff ≡ false
      → leb value 0xffffffff ≡ true
      → Width value
  eight_bytes :
      leb value 23 ≡ false
      → leb value 0xff ≡ false
      → leb value 0xffff ≡ false
      → leb value 0xffffffff ≡ false
      → Width value

pub width : (value : ℕ) → Width value
width value = elim (Bool-cases (leb value 23)) [
  | inl a ↦ immediate a
  | inr a ↦ elim (Bool-cases (leb value 0xff)) [
    | inl b ↦ one_byte a b
    | inr b ↦ elim (Bool-cases (leb value 0xffff)) [
      | inl c ↦ two_bytes a b c
      | inr c ↦ elim (Bool-cases (leb value 0xffffffff)) [
        | inl d ↦ four_bytes a b c d
        | inr d ↦ eight_bytes a b c d
      ]
    ]
  ]
]

module _ (major value : ℕ) (e : Encoder) (hm : major < 8) where
  -- One branch of `Encoder::head` that writes an initial byte and then a word.
  two_writes :
      (low : ℕ) (word : List ℕ)
      → low < 32
      → extend word (extend (bit_or (major * 32 % 256) low ∷ []) e)
        ≡ extend ((major * 32 + low) ∷ word) e
  two_writes low word h =
      rw (prefix_lem major low hm h) (extend-extend ((major * 32 + low) ∷ []) word e)

  head-extend_at :
      IsU64 value → Width value → Encode.head major value e ≡ extend (head_bytes major value) e
  unfolding Encode.head head_bytes
  head-extend_at hv (immediate a) =
      let s : value % 256 ≡ value = ground arith in
      rw (a, s, prefix_lem major value hm (ground arith))
  head-extend_at hv (one_byte a b) =
      let s : value % 256 ≡ value = ground arith in
      rw (a, b, s, prefix_lem major 24 hm (omega arith))
  head-extend_at hv (two_bytes a b c) =
      let s : value % 2 ^ 16 ≡ value = ground arith in
      rw (a, b, c, s) (two_writes 25 (to_be_bytes 2 value) (omega arith))
  head-extend_at hv (four_bytes a b c d) =
      let s : value % 2 ^ 32 ≡ value = ground arith in
      rw (a, b, c, d, s) (two_writes 26 (to_be_bytes 4 value) (omega arith))
  head-extend_at hv (eight_bytes a b c d) =
      rw (a, b, c, d) (two_writes 27 (to_be_bytes 8 value) (omega arith))

-- `Encoder::head` appends the initial byte and the shortest argument.
pub head-extend :
    (major value : ℕ) (e : Encoder)
    → major < 8
    → IsU64 value
    → Encode.head major value e ≡ extend (head_bytes major value) e
head-extend major value e hm hv = head-extend_at major value e hm hv (width value)

-- A branch of `Decoder::head` that reads a word of `n` bytes, above the limit of the shorter form.
Reads-word :
    (n limit value : ℕ)
    → value < 256 ^ n
    → leb value limit ≡ false
    → Reads (long_value n limit) (to_be_bytes n value) value
unfolding long_value
Reads-word n limit value hn hl =
    Reads-then _ (Reads-take_array n (to_be_bytes n value) (length-to_be_bytes n value))
      (rw (from_be_bytes-to_be_bytes n value hn, hl) (Reads-pure value))

Reads-head_value_at :
    (value : ℕ) → IsU64 value → Width value → Reads (head_value (info value)) (argument value) value
unfolding head_value
Reads-head_value_at value hv (immediate a) = rw (a, a) (Reads-pure value)
Reads-head_value_at value hv (one_byte a b) =
    let l : ltb value 24 ≡ false = ground arith in
    rw (a, b) (Reads-then _ (Reads-byte value) (rw l (Reads-pure value)))
Reads-head_value_at value hv (two_bytes a b c) =
    rw (a, b, c) (Reads-word 2 0xff value (ground arith) b)
Reads-head_value_at value hv (four_bytes a b c d) =
    rw (a, b, c, d) (Reads-word 4 0xffff value (ground arith) c)
Reads-head_value_at value hv (eight_bytes a b c d) =
    rw (a, b, c, d) (Reads-word 8 0xffffffff value (ground arith) d)

pub Reads-head_value :
    (value : ℕ) → IsU64 value → Reads (head_value (info value)) (argument value) value
Reads-head_value value hv = Reads-head_value_at value hv (width value)

-- `Decoder::head` of the same major type reads back the value.
pub Reads-head :
    (major value : ℕ) (expected : Expected)
    → major < 8
    → IsU64 value
    → Reads (Decode.head major expected) (head_bytes major value) value
unfolding Decode.head head_bytes
Reads-head major value expected hm hv =
    let small : major * 32 + info value < 256 = omega (arith, info_lt value) in
    let m : (major * 32 + info value) / 32 ≡ major = omega (arith, info_lt value) in
    let i : (major * 32 + info value) % 32 ≡ info value = omega (arith, info_lt value) in
    Reads-bind _ (Reads-byte (major * 32 + info value))
      (rw (bit_and_0x1f _ small, m, i, (==_iff major major).1 refl) (Reads-head_value value hv))
