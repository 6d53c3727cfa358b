-- ===== src/Repo/Cbor/Encode.antt =====
-- bobr-repo/src/cbor.rs, `Encoder`. A byte string is a list of numbers below 256; a `u64` is a
-- number below 2 ^ 64. A method that takes `&mut self` returns the encoder after the call.
use bobr.Base.{ℕ, ◌*◌, ◌%◌, ◌^◌, bit_or, List, [], ◌∷◌, ◌++◌, length, leb, if◌then◌else◌}
use bobr.Base.Bytes.{to_be_bytes}

pub record Encoder : Type 0 where
  pub bytes : List ℕ

unfoldable pub new : Encoder
new = record { bytes = [] }

-- `self.bytes.extend_from_slice(value)`; `self.bytes.push(b)` is the case of one byte.
unfoldable pub extend : List ℕ → Encoder → Encoder
extend value e = record { bytes = e.bytes ++ value }

unfoldable pub head : ℕ → ℕ → Encoder → Encoder
head major value e =
    let prefix = major * 32 % 256 in
    if leb value 23
    then extend (bit_or prefix (value % 256) ∷ []) e
    else if leb value 0xff
    then extend (bit_or prefix 24 ∷ value % 256 ∷ []) e
    else if leb value 0xffff
    then extend (to_be_bytes 2 (value % 2 ^ 16)) (extend (bit_or prefix 25 ∷ []) e)
    else if leb value 0xffffffff
    then extend (to_be_bytes 4 (value % 2 ^ 32)) (extend (bit_or prefix 26 ∷ []) e)
    else extend (to_be_bytes 8 value) (extend (bit_or prefix 27 ∷ []) e)

unfoldable pub array : ℕ → Encoder → Encoder
array length e = head 4 length e

unfoldable pub map : ℕ → Encoder → Encoder
map length e = head 5 length e

unfoldable pub uint : ℕ → Encoder → Encoder
uint value e = head 0 value e

unfoldable pub bytes : List ℕ → Encoder → Encoder
bytes value e = extend value (head 2 (length value) e)

unfoldable pub text : List ℕ → Encoder → Encoder
text value e = extend value (head 3 (length value) e)

unfoldable pub null : Encoder → Encoder
null e = extend (0xf6 ∷ []) e

unfoldable pub finish : Encoder → List ℕ
finish e = e.bytes
