-- ===== src/Repo/Cbor/RoundTrip.antt =====
-- Each method of `Decoder` on what the same method of `Encoder` writes.
use bobr.Base.{
  ℕ, ◌+◌, ◌*◌, ◌≡◌, refl, true, false, Option, none, some, List, [], ◌∷◌, ◌++◌, length, ◌==◌, arith,
  if◌then◌else◌,
}
use bobr.Base.Bytes.{IsU64}
use bobr.Base.Utf8.{is_utf8}
use bobr.Repo.Error.{Expected}
use bobr.Repo.Cbor.Encode
use bobr.Repo.Cbor.Encode.{Encoder, extend}
use bobr.Repo.Cbor.Decode.{M, pure, fail, continue, ◌>>=◌, ◌>>◌, byte, peek, take_bytes, advance}
use bobr.Repo.Cbor.Decode
use bobr.Repo.Cbor.Reads.{
  Reads, Reads-bind, Reads-then, Reads-advance, Reads-pure, Reads-take_bytes, peek-cons,
}
use bobr.Repo.Cbor.Head.{
  info, argument, info_lt, head_bytes, extend-extend, head-extend, Reads-head,
}

-- What the methods of `Encoder` append.
abbrev pub uint_bytes : ℕ → List ℕ
uint_bytes value = head_bytes 0 value

abbrev pub bytes_bytes : List ℕ → List ℕ
bytes_bytes value = head_bytes 2 (length value) ++ value

abbrev pub text_bytes : List ℕ → List ℕ
text_bytes value = head_bytes 3 (length value) ++ value

pub uint-extend :
    (value : ℕ) (e : Encoder) → IsU64 value → Encode.uint value e ≡ extend (uint_bytes value) e
unfolding Encode.uint
uint-extend value e h = head-extend 0 value e (omega arith) h

pub array-extend : (n : ℕ) (e : Encoder) → IsU64 n → Encode.array n e ≡ extend (head_bytes 4 n) e
unfolding Encode.array
array-extend n e h = head-extend 4 n e (omega arith) h

pub map-extend : (n : ℕ) (e : Encoder) → IsU64 n → Encode.map n e ≡ extend (head_bytes 5 n) e
unfolding Encode.map
map-extend n e h = head-extend 5 n e (omega arith) h

pub bytes-extend :
    (value : List ℕ) (e : Encoder)
    → IsU64 (length value)
    → Encode.bytes value e ≡ extend (bytes_bytes value) e
unfolding Encode.bytes
bytes-extend value e h =
    rw (head-extend 2 (length value) e (omega arith) h)
      (extend-extend (head_bytes 2 (length value)) value e)

pub text-extend :
    (value : List ℕ) (e : Encoder)
    → IsU64 (length value)
    → Encode.text value e ≡ extend (text_bytes value) e
unfolding Encode.text
text-extend value e h =
    rw (head-extend 3 (length value) e (omega arith) h)
      (extend-extend (head_bytes 3 (length value)) value e)

pub Reads-uint : (value : ℕ) → IsU64 value → Reads Decode.uint (uint_bytes value) value
unfolding Decode.uint
Reads-uint value h = Reads-head 0 value Expected.unsigned_integer (omega arith) h

pub Reads-array : (n : ℕ) → IsU64 n → Reads Decode.array (head_bytes 4 n) n
unfolding Decode.array
Reads-array n h = Reads-head 4 n Expected.array (omega arith) h

pub Reads-map : (n : ℕ) → IsU64 n → Reads Decode.map (head_bytes 5 n) n
unfolding Decode.map
Reads-map n h = Reads-head 5 n Expected.map (omega arith) h

pub Reads-bytes :
    (value : List ℕ) → IsU64 (length value) → Reads Decode.bytes (bytes_bytes value) value
unfolding Decode.bytes
Reads-bytes value h =
    Reads-bind _ (Reads-head 2 (length value) Expected.byte_string (omega arith) h)
      (Reads-take_bytes (length value) value refl)

pub Reads-text :
    (value : List ℕ)
    → IsU64 (length value)
    → is_utf8 value ≡ true
    → Reads Decode.text (text_bytes value) value
unfolding Decode.text
Reads-text value h u =
    Reads-bind _ (Reads-head 3 (length value) Expected.text_string (omega arith) h)
      (Reads-then _ (Reads-take_bytes (length value) value refl) (rw u (Reads-pure value)))

abbrev pub Optional : {A : Type 0} → (A → Type 0) → Option A → Type 0
Optional P none = Unit
Optional P (some a) = P a

-- What the code writes for an optional value.
abbrev pub null_or : {A : Type 0} → (A → List ℕ) → Option A → List ℕ
null_or f none = 0xf6 ∷ []
null_or f (some v) = f v

-- An optional item: the marker for `None`, or an item whose first byte is another.
module _ {A : Type 0} (m : M A) (v : A) (first : ℕ) (bs : List ℕ) where
  abbrev null_or_action : M (Option A)
  null_or_action = do
    b ← peek
    if b == 0xf6 then (do advance 1; pure none) else (do x ← m; pure (some x))

  Reads-null : Reads null_or_action (0xf6 ∷ []) none
  Reads-null = record {
    run = λ pre rest h.
        rw (peek-cons pre 0xf6 rest)
          ((Reads-then _ (Reads-advance 0xf6) (Reads-pure none)).run pre rest h);
  }

  Reads-some :
      (first == 0xf6) ≡ false → Reads m (first ∷ bs) v → Reads null_or_action (first ∷ bs) (some v)
  Reads-some ne r = record {
    run = λ pre rest h.
        rw (peek-cons pre first (bs ++ rest))
          (rw ne ((Reads-then _ r (Reads-pure (some v))).run pre rest h));
  }

pub Reads-null_or_uint :
    (o : Option ℕ) → Optional IsU64 o → Reads Decode.null_or_uint (null_or uint_bytes o) o
unfolding Decode.null_or_uint head_bytes
Reads-null_or_uint none h = Reads-null Decode.uint 0 0 []
Reads-null_or_uint (some v) h =
    Reads-some Decode.uint v (0 * 32 + info v) (argument v) (ground (arith, info_lt v))
      (Reads-uint v h)

pub Reads-null_or_bytes :
    (o : Option (List ℕ))
    → Optional (λ v. IsU64 (length v)) o
    → Reads Decode.null_or_bytes (null_or bytes_bytes o) o
unfolding Decode.null_or_bytes head_bytes
Reads-null_or_bytes none h = Reads-null Decode.bytes [] 0 []
Reads-null_or_bytes (some v) h =
    Reads-some Decode.bytes v (2 * 32 + info (length v)) (argument (length v) ++ v)
      (ground (arith, info_lt (length v))) (Reads-bytes v h)
