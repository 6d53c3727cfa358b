-- ===== src/Repo/Cbor/Decode.antt =====
-- bobr-repo/src/cbor.rs, `Decoder`: methods are actions over the decoder that may fail. After an
-- error the callers drop the decoder, so an error carries none. `usize` has 64 bits.
use bobr.Base.{
  ℕ, ◌+◌, ◌-◌, ◌/◌, ◌^◌, bit_and, Option, none, some, List, length, take, drop, get_elem?, ltb, leb,
  ◌==◌, if◌then◌else◌, Result, ok, err, ok_or, not,
}
use bobr.Base.Bytes.{from_be_bytes}
use bobr.Base.Utf8.{is_utf8}
use bobr.Repo.Error.{
  RepositoryError, Expected, truncated_cbor_value, cbor_length_overflow, cbor_length_too_large,
  truncated_cbor_integer, non_shortest, trailing_bytes, text_not_utf8, expected_cbor,
  indefinite_length, reserved_additional,
}

pub record Decoder : Type 0 where
  pub bytes : List ℕ
  pub offset : ℕ

abbrev pub M : Type 0 → Type 0
M A = Decoder → Result RepositoryError (A × Decoder)

abbrev pub pure : {A : Type 0} → A → M A
pure a d = ok (a, d)

abbrev pub fail : {A : Type 0} → RepositoryError → M A
fail e d = err e

abbrev pub continue :
    {A B : Type 0}
    → Result RepositoryError (A × Decoder)
    → (A → M B)
    → Result RepositoryError (B × Decoder)
continue (ok (a, d)) f = f a d
continue (err e) f = err e

infixl 5 ◌>>=◌ ◌>>◌
abbrev pub ◌>>=◌ : {A B : Type 0} → M A → (A → M B) → M B
◌>>=◌ m f d = continue (m d) f

abbrev pub ◌>>◌ : {B : Type 0} → M (Unit {0}) → M B → M B
m >> k = m >>= λ _. k

abbrev pub lift : {A : Type 0} → Result RepositoryError A → M A
lift (ok a) = pure a
lift (err e) = fail e

unfoldable pub new : List ℕ → Decoder
new bytes = record { bytes = bytes; offset = 0 }

unfoldable pub remaining_bytes : Decoder → ℕ
remaining_bytes d = length d.bytes - d.offset

unfoldable pub peek : M ℕ
peek d = lift (ok_or (get_elem? d.bytes d.offset) truncated_cbor_value) d

unfoldable pub advance : ℕ → M (Unit {0})
advance n d = ok (tt, record d { offset = d.offset + n })

unfoldable pub byte : M ℕ
unfolding peek advance
byte = do b ← peek; advance 1; pure b

-- `self.bytes.get(self.offset..end)`.
abbrev pub get_range : List ℕ → ℕ → ℕ → Option (List ℕ)
get_range bytes start end =
    if leb start end
    then (if leb end (length bytes) then some (take (end - start) (drop start bytes)) else none)
    else none

unfoldable pub take_bytes : ℕ → M (List ℕ)
unfolding advance
take_bytes n d =
    if not (ltb n (2 ^ 64))
    then err cbor_length_too_large
    else if not (ltb (d.offset + n) (2 ^ 64))
    then err cbor_length_overflow
    else (do
      value ← lift (ok_or (get_range d.bytes d.offset (d.offset + n)) truncated_cbor_value)
      advance n
      pure value)
        d

unfoldable pub take_array : ℕ → M (List ℕ)
take_array n = do
  value ← take_bytes n
  if length value == n then pure value else fail truncated_cbor_integer

-- An argument of `n` bytes, refused where a shorter form holds it.
unfoldable pub long_value : ℕ → ℕ → M ℕ
long_value n limit = do
  a ← take_array n
  let value = from_be_bytes a
  if leb value limit then fail non_shortest else pure value

-- The value behind the additional information of the initial byte.
unfoldable pub head_value : ℕ → M ℕ
head_value additional =
    if leb additional 23
    then pure additional
    else if additional == 24
    then (do value ← byte; if ltb value 24 then fail non_shortest else pure value)
    else if additional == 25
    then long_value 2 0xff
    else if additional == 26
    then long_value 4 0xffff
    else if additional == 27
    then long_value 8 0xffffffff
    else if additional == 31
    then fail indefinite_length
    else fail reserved_additional

unfoldable pub head : ℕ → Expected → M ℕ
head expected_major expected = do
  initial ← byte
  let major = initial / 32
  let additional = bit_and initial 0x1f
  if not (major == expected_major) then fail (expected_cbor expected) else head_value additional

unfoldable pub array : M ℕ
array = head 4 Expected.array

unfoldable pub map : M ℕ
map = head 5 Expected.map

unfoldable pub uint : M ℕ
uint = head 0 Expected.unsigned_integer

unfoldable pub bytes : M (List ℕ)
bytes = do n ← head 2 Expected.byte_string; take_bytes n

unfoldable pub text : M (List ℕ)
text = do
  n ← head 3 Expected.text_string
  value ← take_bytes n
  if is_utf8 value then pure value else fail text_not_utf8

unfoldable pub null_or_uint : M (Option ℕ)
null_or_uint = do
  b ← peek
  if b == 0xf6 then (do advance 1; pure none) else (do v ← uint; pure (some v))

unfoldable pub null_or_bytes : M (Option (List ℕ))
null_or_bytes = do
  b ← peek
  if b == 0xf6 then (do advance 1; pure none) else (do v ← bytes; pure (some v))

unfoldable pub finish : M (Unit {0})
finish d = if d.offset == length d.bytes then ok (tt, d) else err trailing_bytes
