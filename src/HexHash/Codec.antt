-- ===== src/HexHash/Codec.antt =====
-- The text of a hash: parsing and printing together.
use bobr.Base.{
  ℕ, zero, suc, ◌+◌, ◌*◌, ◌/◌, ◌%◌, ◌<◌, ◌≡◌, refl, sym, ap, ◌∙◌, subst, ◌↔◌, bit_and, bit_or, true,
  List, [], ◌∷◌, length, all, All, ◌==◌, ==_iff, Result, ok, >>=-eq-ok, ok_or, inl, inr, Bool-cases,
  arith,
}
use bobr.Base.Bytes.{IsByte, bit_and_0x0f, bit_or_nibbles}
use bobr.HexHash.{
  invalid_hex, hex_digit, to_hex, decode_nibble, is_hex_byte, decode_pairs, from_str, hex_nibble,
  hex_decode, hex_encode,
}

-- A hash: 32 bytes.
abbrev pub IsHashBytes : List ℕ → Type 0
IsHashBytes bytes = (length bytes ≡ 32) × All IsByte bytes

-- A digit is decoded to the nibble that prints as it, and nothing else is decoded.
abbrev IsNibbleOf : {E : Type 0} → (ℕ → Result E ℕ) → Type 0
IsNibbleOf nibble = (b n : ℕ) → (nibble b ≡ ok n) ↔ ((n < 16) × (hex_digit n ≡ b))

decode_nibble-IsNibbleOf : IsNibbleOf (λ b. ok_or (decode_nibble b) invalid_hex)
unfolding decode_nibble
decode_nibble-IsNibbleOf b n = (λ e. ground arith, λ h. ground (arith, h.0, h.1))

hex_nibble-IsNibbleOf : IsNibbleOf hex_nibble
unfolding hex_nibble
hex_nibble-IsNibbleOf b n = (λ e. ground arith, λ h. ground (arith, h.0, h.1))

-- The byte of two nibbles, and its nibbles.
byte_of : (hi lo : ℕ) → hi < 16 → lo < 16 → bit_or (hi * 16 % 256) lo ≡ hi * 16 + lo
byte_of hi lo h l =
    let same : hi * 16 % 256 ≡ hi * 16 = omega arith in rw same (bit_or_nibbles hi lo h l)

module _ {E : Type 0} (nibble : ℕ → Result E ℕ) (spec : IsNibbleOf nibble) where
  decode_pairs_sound :
      (n : ℕ) (text bytes : List ℕ)
      → length text ≡ n * 2
      → decode_pairs nibble text ≡ ok bytes
      → (length bytes ≡ n) × All IsByte bytes × (to_hex bytes ≡ text)
  unfolding decode_pairs to_hex
  decode_pairs_sound n [] bytes h e =
      let same : [] ≡ bytes = cc e in
      let none_left : 0 ≡ n = omega arith in
      subst (λ l. (length l ≡ n) × All IsByte l × (to_hex l ≡ [])) same (none_left, tt, refl)
  decode_pairs_sound n (x ∷ []) bytes h e = absurd (omega arith)
  decode_pairs_sound zero (x ∷ y ∷ text) bytes h e = absurd (omega arith)
  decode_pairs_sound (suc n) (x ∷ y ∷ text) bytes h e =
      let (hi, eh, e1) = >>=-eq-ok (nibble x) _ e in
      let (lo, el, e2) = >>=-eq-ok (nibble y) _ e1 in
      let (rest, run, last) = >>=-eq-ok (decode_pairs nibble text) _ e2 in
      let (small_hi, print_hi) = (spec x hi).0 eh in
      let (small_lo, print_lo) = (spec y lo).0 el in
      let (count, all, printed) = decode_pairs_sound n text rest (omega arith) run in
      let byte = byte_of hi lo small_hi small_lo in
      let same : (hi * 16 + lo) ∷ rest ≡ bytes = ap (λ b. b ∷ rest) (sym byte) ∙ (cc last) in
      let high : (hi * 16 + lo) / 16 ≡ hi = omega arith in
      let low : bit_and (hi * 16 + lo) 0x0f ≡ lo =
        bit_and_0x0f (hi * 16 + lo) (omega arith) ∙ omega arith in
      subst (λ l. (length l ≡ suc n) × All IsByte l × (to_hex l ≡ x ∷ y ∷ text)) same
        (ap suc count, (omega arith, all), rw (high, low, print_hi, print_lo, printed))

  decode_pairs-to_hex :
      (bytes : List ℕ) → All IsByte bytes → decode_pairs nibble (to_hex bytes) ≡ ok bytes
  unfolding decode_pairs to_hex
  decode_pairs-to_hex [] all = refl
  decode_pairs-to_hex (b ∷ bytes) all =
      let low = bit_and_0x0f b all.0 in
      let hi = (spec (hex_digit (b / 16)) (b / 16)).1 ((let small = all.0 in omega arith), refl) in
      let lo = (spec (hex_digit (b % 16)) (b % 16)).1 (omega arith, refl) in
      let byte : bit_or (b / 16 * 16 % 256) (b % 16) ≡ b =
        byte_of (b / 16) (b % 16) (let small = all.0 in omega arith) (omega arith) ∙ omega arith in
      rw (low, hi, lo, decode_pairs-to_hex bytes all.1, byte)

length-to_hex : (bytes : List ℕ) → length (to_hex bytes) ≡ length bytes * 2
unfolding to_hex
length-to_hex [] = omega arith
length-to_hex (b ∷ bytes) = omega (arith, length-to_hex bytes)

hex_digit-is_hex_byte : (n : ℕ) → n < 16 → is_hex_byte (hex_digit n) ≡ true
hex_digit-is_hex_byte n h = ground arith

all-to_hex : (bytes : List ℕ) → All IsByte bytes → all is_hex_byte (to_hex bytes) ≡ true
unfolding to_hex
all-to_hex [] h = refl
all-to_hex (b ∷ bytes) h =
    let high = hex_digit-is_hex_byte (b / 16) (let small = h.0 in omega arith) in
    let low = hex_digit-is_hex_byte (b % 16) (omega arith) in
    rw (bit_and_0x0f b h.0, high, low, all-to_hex bytes h.1)

-- from_str returns bytes for a text exactly when they are 32 bytes and to_hex prints them as
-- that text: parsing and printing are inverse to each other, and only the printed form is
-- accepted.
pub from_str_iff :
    (text bytes : List ℕ) → (from_str text ≡ ok bytes) ↔ (IsHashBytes bytes × (to_hex bytes ≡ text))
unfolding from_str
from_str_iff text bytes = (sound, complete)
  where
    sound : from_str text ≡ ok bytes → IsHashBytes bytes × (to_hex bytes ≡ text)
    sound e = elim (Bool-cases (length text == 64)) [
      | inr f ↦ absurd (cc (rw f at e))
      | inl t ↦ elim (Bool-cases (all is_hex_byte text)) [
        | inr f ↦ absurd (cc (rw (t, f) at e))
        | inl digits ↦
            let count : length text ≡ 64 = (==_iff _ 64).0 t in
            let (size, all, printed) =
              decode_pairs_sound _ decode_nibble-IsNibbleOf 32 text bytes (omega arith)
                (rw (t, digits) at e) in
            ((size, all), printed)
      ]
    ]

    complete : IsHashBytes bytes × (to_hex bytes ≡ text) → from_str text ≡ ok bytes
    complete h =
        let (size, all) = h.0 in
        let count : (length (to_hex bytes) == 64) ≡ true =
          (==_iff (length (to_hex bytes)) 64).1 (length-to_hex bytes ∙ omega arith) in
        subst (λ l. from_str l ≡ ok bytes) h.1
          (rw (count, all-to_hex bytes all)
            (decode_pairs-to_hex _ decode_nibble-IsNibbleOf bytes all))

hex_encode-to_hex : (bytes : List ℕ) → hex_encode bytes ≡ to_hex bytes
unfolding hex_encode to_hex
hex_encode-to_hex [] = refl
hex_encode-to_hex (b ∷ bytes) = rw (hex_encode-to_hex bytes)

-- hex_decode returns bytes for a text exactly when they are 32 bytes and hex_encode prints them
-- as that text.
pub hex_decode_iff :
    (text bytes : List ℕ)
    → (hex_decode text ≡ ok bytes) ↔ (IsHashBytes bytes × (hex_encode bytes ≡ text))
unfolding hex_decode
hex_decode_iff text bytes = (sound, complete)
  where
    sound : hex_decode text ≡ ok bytes → IsHashBytes bytes × (hex_encode bytes ≡ text)
    sound e = elim (Bool-cases (length text == 64)) [
      | inr f ↦ absurd (cc (rw f at e))
      | inl t ↦
          let count : length text ≡ 64 = (==_iff _ 64).0 t in
          let (size, all, printed) =
            decode_pairs_sound hex_nibble hex_nibble-IsNibbleOf 32 text bytes (omega arith)
              (rw t at e) in
          ((size, all), hex_encode-to_hex bytes ∙ printed)
    ]

    complete : IsHashBytes bytes × (hex_encode bytes ≡ text) → hex_decode text ≡ ok bytes
    complete h =
        let (size, all) = h.0 in
        let count : (length (to_hex bytes) == 64) ≡ true =
          (==_iff (length (to_hex bytes)) 64).1 (length-to_hex bytes ∙ omega arith) in
        subst (λ l. hex_decode l ≡ ok bytes) (sym (hex_encode-to_hex bytes) ∙ h.1)
          (rw count (decode_pairs-to_hex hex_nibble hex_nibble-IsNibbleOf bytes all))
