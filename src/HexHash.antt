-- ===== src/HexHash.antt =====
-- fsobj-hash/src/hex_hash.rs (`define_hex_hash_type!`) and bobr-repo/src/format.rs: the text of a
-- hash, 64 lowercase hexadecimal digits. A value that the source fills in place is returned.
pub mod Codec
mod Tests
use bobr.Base.{
  ℕ, zero, suc, ◌+◌, ◌-◌, ◌*◌, ◌/◌, ◌%◌, bit_and, bit_or, Bool, true, false, not, ◌&&◌, ◌||◌,
  Option, none, some, List, [], ◌∷◌, length, all, leb, ◌==◌, if◌then◌else◌, Result, ok, err, ◌>>=◌,
  ok_or,
}
use bobr.Repo.Error.{RepositoryError, hash_not_hex, hash_not_64_digits}

pub data ParseHexHashError : Type 0 where
  invalid_length invalid_hex : ParseHexHashError

-- `b"0123456789abcdef"[nibble]`, for a nibble below 16.
abbrev pub hex_digit : ℕ → ℕ
hex_digit nibble = if leb nibble 9 then 48 + nibble else 87 + nibble

unfoldable pub to_hex : List ℕ → List ℕ
to_hex [] = []
to_hex (byte ∷ bytes) = hex_digit (byte / 16) ∷ hex_digit (bit_and byte 0x0f) ∷ to_hex bytes

unfoldable pub decode_nibble : ℕ → Option ℕ
decode_nibble byte =
    if leb 48 byte && leb byte 57
    then some (byte - 48)
    else if leb 97 byte && leb byte 102
    then some (byte - 97 + 10)
    else none

-- `b.is_ascii_digit() || (b'a'..=b'f').contains(&b)`.
abbrev pub is_hex_byte : ℕ → Bool
is_hex_byte b = leb 48 b && leb b 57 || leb 97 b && leb b 102

-- The loop over `chunks_exact(2)`, with the function that decodes one digit.
unfoldable pub decode_pairs : {E : Type 0} → (ℕ → Result E ℕ) → List ℕ → Result E (List ℕ)
decode_pairs nibble [] = ok []
decode_pairs nibble (x ∷ []) = ok []
decode_pairs nibble (x ∷ y ∷ text) = do
  hi ← nibble x
  lo ← nibble y
  bytes ← decode_pairs nibble text
  ok (bit_or (hi * 16 % 256) lo ∷ bytes)

unfoldable pub from_str : List ℕ → Result ParseHexHashError (List ℕ)
from_str value =
    let bytes = decode_pairs (λ b. ok_or (decode_nibble b) invalid_hex) value in
    if not (length value == 64)
    then err invalid_length
    else if not (all is_hex_byte value)
    then err invalid_hex
    else bytes

-- `hex_nibble`, `hex_decode` and `hex_encode` of bobr-repo/src/format.rs.
unfoldable pub hex_nibble : ℕ → Result RepositoryError ℕ
hex_nibble byte =
    if leb 48 byte && leb byte 57
    then ok (byte - 48)
    else if leb 97 byte && leb byte 102
    then ok (byte - 97 + 10)
    else err hash_not_hex

unfoldable pub hex_decode : List ℕ → Result RepositoryError (List ℕ)
hex_decode value =
    let bytes = decode_pairs hex_nibble value in
    if not (length value == 64) then err hash_not_64_digits else bytes

unfoldable pub hex_encode : List ℕ → List ℕ
hex_encode [] = []
hex_encode (byte ∷ bytes) = hex_digit (byte / 16) ∷ hex_digit (bit_and byte 0x0f) ∷ hex_encode bytes
