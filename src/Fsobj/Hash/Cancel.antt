-- ===== src/Fsobj/Hash/Cancel.antt =====
-- Fields of a fixed or a written length are cut off a byte string in one way only.
use bobr.Base.{ℕ, ◌^◌, ◌<◌, ◌≡◌, refl, sym, ap, ◌∙◌, List, [], ◌∷◌, ◌++◌, length, arith}
use bobr.Base.Bytes.{to_be_bytes, from_be_bytes, length-to_be_bytes, from_be_bytes-to_be_bytes}

pub append-cancel :
    (xs ys us vs : List ℕ) → length xs ≡ length ys → xs ++ us ≡ ys ++ vs → (xs ≡ ys) × (us ≡ vs)
append-cancel [] [] us vs h e = (refl, e)
append-cancel [] (y ∷ ys) us vs h e = absurd (omega arith)
append-cancel (x ∷ xs) [] us vs h e = absurd (omega arith)
append-cancel (x ∷ xs) (y ∷ ys) us vs h e =
    let head : x ≡ y = cc e in
    let tail : xs ++ us ≡ ys ++ vs = cc e in
    let (same, rest) = append-cancel xs ys us vs (omega arith) tail in (rw (head, same), rest)

-- A word of eight bytes.
pub word-cancel :
    (n m : ℕ) (us vs : List ℕ)
    → n < 2 ^ 64
    → m < 2 ^ 64
    → to_be_bytes 8 n ++ us ≡ to_be_bytes 8 m ++ vs
    → (n ≡ m) × (us ≡ vs)
word-cancel n m us vs hn hm e =
    let sizes = length-to_be_bytes 8 n ∙ sym (length-to_be_bytes 8 m) in
    let (words, rest) = append-cancel (to_be_bytes 8 n) (to_be_bytes 8 m) us vs sizes e in
    (
      sym (from_be_bytes-to_be_bytes 8 n (omega arith))
          ∙ ap from_be_bytes words
          ∙ from_be_bytes-to_be_bytes 8 m (omega arith),
      rest,
    )
