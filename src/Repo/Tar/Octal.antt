-- ===== src/Repo/Tar/Octal.antt =====
-- Octal fields: `write_octal` and `parse_octal`.
use bobr.Base.{
  ℕ, zero, suc, ◌+◌, ◌-◌, ◌*◌, ◌/◌, ◌%◌, ◌^◌, ◌≤◌, ◌<◌, ◌≡◌, refl, sym, ap, ◌∙◌, Bool, true, false,
  some, List, [], ◌∷◌, ◌++◌, reverse, reverse-append, length, length-append, length-reverse, All,
  All-append, All-reverse, ltb, leb, ◌==◌, ==_iff, lt→ltb, ok, inl, inr, Bool-cases, arith,
}
use bobr.Repo.Tar.{
  checked_push, parse_octal_loop, parse_octal, octal_digits, octal_text, zeros, format_octal,
  write_octal,
}

abbrev pub IsOctal : ℕ → Type 0
IsOctal b = (48 ≤ b) × (b ≤ 55)

-- The number that octal digits write, behind `value`.
abbrev horner : ℕ → List ℕ → ℕ
horner value [] = value
horner value (b ∷ bs) = horner (value * 8 + (b - 48)) bs

horner-le : (bs : List ℕ) (value : ℕ) → value ≤ horner value bs
horner-le [] value = omega arith
horner-le (b ∷ bs) value = let more = horner-le bs (value * 8 + (b - 48)) in omega arith

horner-append : (xs ys : List ℕ) (value : ℕ) → horner value (xs ++ ys) ≡ horner (horner value xs) ys
horner-append [] ys value = refl
horner-append (x ∷ xs) ys value = horner-append xs ys (value * 8 + (x - 48))

pub checked_push-some :
    (base value digit : ℕ)
    → value * base + digit < 2 ^ 64
    → checked_push base value digit ≡ some (value * base + digit)
checked_push-some base value digit h =
    let first : ltb (value * base) (2 ^ 64) ≡ true = lt→ltb _ _ (omega arith) in
    let second : ltb (value * base + digit) (2 ^ 64) ≡ true = lt→ltb _ _ h in rw (first, second)

-- One digit of the loop.
loop-digit :
    (b : ℕ) (rest : List ℕ) (value : ℕ) (saw : Bool)
    → IsOctal b
    → value * 8 + (b - 48) < 2 ^ 64
    → parse_octal_loop (b ∷ rest) value saw false
      ≡ parse_octal_loop rest (value * 8 + (b - 48)) true false
unfolding parse_octal_loop
loop-digit b rest value saw h small =
    let not_blank : (b == 32) ≡ false = ground (arith, h.0) in
    let low : leb 48 b ≡ true = ground (arith, h.0) in
    let high : leb b 55 ≡ true = ground (arith, h.1) in
    rw (not_blank, low, high, checked_push-some 8 value (b - 48) small)

loop-digits :
    (b : ℕ) (bs rest : List ℕ) (value : ℕ) (saw : Bool)
    → IsOctal b
    → All IsOctal bs
    → horner value (b ∷ bs) < 2 ^ 64
    → parse_octal_loop (b ∷ (bs ++ rest)) value saw false
      ≡ parse_octal_loop rest (horner value (b ∷ bs)) true false
loop-digits b [] rest value saw h all small = loop-digit b rest value saw h small
loop-digits b (c ∷ bs) rest value saw h all small =
    let le = horner-le (c ∷ bs) (value * 8 + (b - 48)) in
    loop-digit b (c ∷ (bs ++ rest)) value saw h (omega arith)
    ∙ loop-digits c bs rest (value * 8 + (b - 48)) true all.0 all.1 small

loop-nul : (value : ℕ) → parse_octal_loop (0 ∷ []) value true false ≡ ok value
unfolding parse_octal_loop
loop-nul value = refl

octal_digits-IsOctal : (fuel value : ℕ) → All IsOctal (octal_digits fuel value)
unfolding octal_digits
octal_digits-IsOctal zero value = tt
octal_digits-IsOctal (suc fuel) value = elim (Bool-cases (value == 0)) [
  | inl t ↦ rw t tt
  | inr f ↦ rw f ((omega arith, omega arith), octal_digits-IsOctal fuel (value / 8))
]

horner-octal_digits :
    (fuel value : ℕ) → value < 8 ^ fuel → horner 0 (reverse (octal_digits fuel value)) ≡ value
unfolding octal_digits
horner-octal_digits zero value h = omega arith
horner-octal_digits (suc fuel) value h = elim (Bool-cases (value == 0)) [
  | inl t ↦ rw t (sym ((==_iff value 0).0 t))
  | inr f ↦
      let rest = horner-octal_digits fuel (value / 8) (omega arith) in
      rw f (
        ap (horner 0) (reverse-append ((48 + value % 8) ∷ []) (octal_digits fuel (value / 8)))
        ∙ horner-append (reverse (octal_digits fuel (value / 8))) ((48 + value % 8) ∷ []) 0
        ∙ omega (arith, rest))
]

-- The number of digits says how large the value is.
octal_digits-bound :
    (fuel digits value : ℕ) → value < 8 ^ digits → length (octal_digits fuel value) ≤ digits
unfolding octal_digits
octal_digits-bound zero digits value h = omega arith
octal_digits-bound (suc fuel) zero value h =
    let none : value ≡ 0 = omega arith in rw none (omega arith)
octal_digits-bound (suc fuel) (suc digits) value h = elim (Bool-cases (value == 0)) [
  | inl t ↦ rw t (omega arith)
  | inr f ↦ rw f (omega (arith, octal_digits-bound fuel digits (value / 8) (omega arith)))
]

octal_text-IsOctal : (value : ℕ) → All IsOctal (octal_text value)
octal_text-IsOctal value = elim (Bool-cases (value == 0)) [
  | inl t ↦ rw t ((omega arith, omega arith), tt)
  | inr f ↦ rw f (All-reverse IsOctal (octal_digits 22 value) (octal_digits-IsOctal 22 value))
]

horner-octal_text : (value : ℕ) → value < 2 ^ 64 → horner 0 (octal_text value) ≡ value
horner-octal_text value h = elim (Bool-cases (value == 0)) [
  | inl t ↦ rw t (sym ((==_iff value 0).0 t))
  | inr f ↦ rw f (horner-octal_digits 22 value (omega arith))
]

length-octal_text :
    (digits value : ℕ) → 1 ≤ digits → value < 8 ^ digits → length (octal_text value) ≤ digits
length-octal_text digits value ne h = elim (Bool-cases (value == 0)) [
  | inl t ↦ rw t ne
  | inr f ↦
      rw f (
        omega (arith, length-reverse (octal_digits 22 value), octal_digits-bound 22 digits value h))
]

zeros-IsOctal : (n : ℕ) → All IsOctal (zeros n)
zeros-IsOctal zero = tt
zeros-IsOctal (suc n) = ((omega arith, omega arith), zeros-IsOctal n)

horner-zeros : (n : ℕ) → horner 0 (zeros n) ≡ 0
horner-zeros zero = refl
horner-zeros (suc n) = horner-zeros n

length-zeros : (n : ℕ) → length (zeros n) ≡ n
length-zeros zero = refl
length-zeros (suc n) = ap suc (length-zeros n)

pub format_octal-IsOctal : (digits value : ℕ) → All IsOctal (format_octal digits value)
unfolding format_octal
format_octal-IsOctal digits value =
    All-append IsOctal (zeros (digits - length (octal_text value))) (octal_text value)
      (zeros-IsOctal (digits - length (octal_text value))) (octal_text-IsOctal value)

horner-format_octal :
    (digits value : ℕ) → value < 2 ^ 64 → horner 0 (format_octal digits value) ≡ value
unfolding format_octal
horner-format_octal digits value h =
    horner-append (zeros (digits - length (octal_text value))) (octal_text value) 0
    ∙ ap (λ v. horner v (octal_text value)) (horner-zeros (digits - length (octal_text value)))
    ∙ horner-octal_text value h

pub length-format_octal :
    (digits value : ℕ)
    → 1 ≤ digits
    → value < 8 ^ digits
    → length (format_octal digits value) ≡ digits
unfolding format_octal
length-format_octal digits value ne h =
    length-append (zeros (digits - length (octal_text value))) (octal_text value)
    ∙ omega (
      arith,
      length-zeros (digits - length (octal_text value)),
      length-octal_text digits value ne h,
    )

parse_octal-digits :
    (bs : List ℕ)
    → All IsOctal bs
    → 1 ≤ length bs
    → horner 0 bs < 2 ^ 64
    → parse_octal (bs ++ 0 ∷ []) ≡ ok (horner 0 bs)
unfolding parse_octal
parse_octal-digits [] all ne small = absurd (omega arith)
parse_octal-digits (b ∷ bs) all ne small =
    loop-digits b bs (0 ∷ []) 0 false all.0 all.1 small ∙ loop-nul (horner 0 (b ∷ bs))

All-ascii : (bs : List ℕ) → All IsOctal bs → All (λ b. b < 128) bs
All-ascii [] h = tt
All-ascii (b ∷ bs) h = ((let le = h.0.1 in omega arith), All-ascii bs h.1)

-- The field that `write_octal` makes, with what `parse_size` looks at besides.
pub write_octal_lem :
    (size value : ℕ)
    → 2 ≤ size
    → value < 8 ^ (size - 1)
    → value < 2 ^ 64
    → (field : List ℕ) × (write_octal size value ≡ ok field)
      × (length field ≡ size)
      × (parse_octal field ≡ ok value)
      × All (λ b. b < 128) field
unfolding write_octal
write_octal_lem size value room fits small =
    let text = format_octal (size - 1) value in
    let digits = format_octal-IsOctal (size - 1) value in
    let count = length-format_octal (size - 1) value (omega arith) fits in
    let same = horner-format_octal (size - 1) value small in
    let enough : ltb (size - 1) (length text) ≡ false = ground arith in
    (
      text ++ 0 ∷ [],
      rw enough,
      length-append text (0 ∷ []) ∙ omega arith,
      parse_octal-digits text digits (omega arith) (omega arith) ∙ ap ok same,
      All-append (λ b. b < 128) text (0 ∷ []) (All-ascii text digits) (omega arith, tt),
    )

-- For a field of at least two bytes and a u64 that fits in one octal digit less than the field
-- has bytes, write_octal fills the field, from which parse_octal returns that number.
pub parse_octal-write_octal :
    (size value : ℕ)
    → 2 ≤ size
    → value < 8 ^ (size - 1)
    → value < 2 ^ 64
    → (field : List ℕ) × (write_octal size value ≡ ok field)
      × (length field ≡ size)
      × (parse_octal field ≡ ok value)
parse_octal-write_octal size value room fits small =
    let (field, written, count, read, ascii) = write_octal_lem size value room fits small in
    (field, written, count, read)
