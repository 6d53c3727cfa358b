-- ===== src/Repo/Tar/Size.antt =====
-- The size field: `write_size` and `parse_size`, in octal and in base 256.
use bobr.Base.{
  ℕ, zero, suc, ◌+◌, ◌*◌, ◌/◌, ◌%◌, ◌^◌, ◌≤◌, ◌<◌, ◌≡◌, refl, ap, ◌∙◌, bit_and, true, false, some,
  List, [], ◌∷◌, ◌++◌, reverse, reverse-append, length, All, leb, ◌==◌, ok, inl, inr, Bool-cases,
  arith,
}
use bobr.Base.Bytes.{to_le_bytes, to_be_bytes, every-below, length-to_be_bytes}
use bobr.Repo.Tar.{octal_max, parse_octal, parse_base256, parse_size, write_size}
use bobr.Repo.Tar.Octal.{checked_push-some, write_octal_lem}

-- The number that bytes write in base 256, behind `value`.
abbrev horner256 : ℕ → List ℕ → ℕ
horner256 value [] = value
horner256 value (b ∷ bs) = horner256 (value * 256 + b) bs

horner256-le : (bs : List ℕ) (value : ℕ) → value ≤ horner256 value bs
horner256-le [] value = omega arith
horner256-le (b ∷ bs) value = let more = horner256-le bs (value * 256 + b) in omega arith

horner256-append :
    (xs ys : List ℕ) (value : ℕ) → horner256 value (xs ++ ys) ≡ horner256 (horner256 value xs) ys
horner256-append [] ys value = refl
horner256-append (x ∷ xs) ys value = horner256-append xs ys (value * 256 + x)

parse_base256-horner256 :
    (bs : List ℕ) (value : ℕ)
    → horner256 value bs < 2 ^ 64
    → parse_base256 value bs ≡ ok (horner256 value bs)
unfolding parse_base256
parse_base256-horner256 [] value h = refl
parse_base256-horner256 (b ∷ bs) value h =
    let le = horner256-le bs (value * 256 + b) in
    rw (parse_base256, checked_push-some 256 value b (omega arith))
      (parse_base256-horner256 bs (value * 256 + b) h)

horner256-to_le_bytes : (n v : ℕ) → v < 256 ^ n → horner256 0 (reverse (to_le_bytes n v)) ≡ v
horner256-to_le_bytes zero v h = omega arith
horner256-to_le_bytes (suc n) v h =
    let rest = horner256-to_le_bytes n (v / 256) (omega arith) in
    ap (horner256 0) (reverse-append ((v % 256) ∷ []) (to_le_bytes n (v / 256)))
    ∙ horner256-append (reverse (to_le_bytes n (v / 256))) ((v % 256) ∷ []) 0
    ∙ omega (arith, rest)

horner256-to_be_bytes : (v : ℕ) → v < 2 ^ 64 → horner256 0 (to_be_bytes 8 v) ≡ v
unfolding to_be_bytes
horner256-to_be_bytes v h = horner256-to_le_bytes 8 v (omega arith)

high_bit_clear : (b : ℕ) → b < 128 → (bit_and b 0x80 == 0) ≡ true
high_bit_clear b h = every-below (λ x. bit_and x 0x80 == 0) 128 refl b h

parse_size-octal :
    (field : List ℕ) (value : ℕ)
    → 1 ≤ length field
    → All (λ b. b < 128) field
    → parse_octal field ≡ ok value
    → parse_size field ≡ some (ok value)
unfolding parse_size
parse_size-octal [] value room h e = absurd (omega arith)
parse_size-octal (b ∷ bs) value room h e = rw (high_bit_clear b h.0, e)

parse_size-base256 :
    (value : ℕ)
    → value < 2 ^ 64
    → leb value (octal_max 12) ≡ false
    → parse_size (0x80 ∷ 0 ∷ 0 ∷ 0 ∷ to_be_bytes 8 value) ≡ some (ok value)
unfolding parse_size
parse_size-base256 value small large =
    let same = horner256-to_be_bytes value small in
    let read : parse_base256 0 (0 ∷ 0 ∷ 0 ∷ to_be_bytes 8 value) ≡ ok value =
      parse_base256-horner256 (0 ∷ 0 ∷ 0 ∷ to_be_bytes 8 value) 0 (omega arith) ∙ ap ok same in
    let count = length-to_be_bytes 8 value in rw (read, count, large)

-- For every u64, write_size fills a field of 12 bytes, in octal or in base 256, from which
-- parse_size returns that number.
pub parse_size-write_size :
    (value : ℕ)
    → value < 2 ^ 64
    → (field : List ℕ) × (write_size 12 value ≡ ok field)
      × (length field ≡ 12)
      × (parse_size field ≡ some (ok value))
unfolding write_size
parse_size-write_size value small = elim (Bool-cases (leb value (octal_max 12))) [
  | inl t ↦
      let fits : value < 8 ^ 11 = ground arith in
      let (field, written, count, read, ascii) =
        write_octal_lem 12 value (omega arith) fits small in
      (field, rw t written, count, parse_size-octal field value (omega arith) ascii read)
  | inr f ↦ (
    0x80 ∷ 0 ∷ 0 ∷ 0 ∷ to_be_bytes 8 value,
    rw f,
    omega (arith, length-to_be_bytes 8 value),
    parse_size-base256 value small f,
  )
]
