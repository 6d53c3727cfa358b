-- ===== src/HexHash/Tests.antt =====
-- The theorems at small inputs.
use bobr.Base.{ℕ, zero, suc, ◌≡◌, ◌↔◌, List, [], ◌∷◌, ok}
use bobr.HexHash.{to_hex, from_str, hex_encode, hex_decode}
use bobr.HexHash.Codec.{IsHashBytes, from_str_iff, hex_decode_iff}

abbrev copies : ℕ → ℕ → List ℕ
copies zero b = []
copies (suc n) b = b ∷ copies n b

-- Thirty-two times the byte 0x33, which prints as two digits 3.
from_str_iff-example :
    (from_str (copies 64 0x33) ≡ ok (copies 32 0x33))
    ↔ (IsHashBytes (copies 32 0x33) × (to_hex (copies 32 0x33) ≡ copies 64 0x33))
from_str_iff-example = from_str_iff (copies 64 0x33) (copies 32 0x33)

hex_decode_iff-example :
    (hex_decode (copies 64 0x33) ≡ ok (copies 32 0x33))
    ↔ (IsHashBytes (copies 32 0x33) × (hex_encode (copies 32 0x33) ≡ copies 64 0x33))
hex_decode_iff-example = hex_decode_iff (copies 64 0x33) (copies 32 0x33)
