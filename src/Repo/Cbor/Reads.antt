-- ===== src/Repo/Cbor/Reads.antt =====
-- What a decoder action reads: rules for showing that an action consumes given bytes.
use bobr.Base.{
  if◌then◌else◌, Bool, true, false, ℕ, ◌+◌, ◌-◌, ◌^◌, ◌≤◌, ◌<◌, ◌≡◌, refl, ap, ◌∙◌, none, some,
  List, [], ◌∷◌, ◌++◌, length, get_elem?, length-append, append_assoc, append-nil, take-append,
  drop-append, ok, err, lt→ltb, le→leb, ==_iff, arith,
}
use bobr.Repo.Error.{RepositoryError, truncated_cbor_value}
use bobr.Repo.Cbor.Decode.{
  Decoder, M, ◌>>=◌, pure, fail, byte, take_bytes, take_array, peek, finish, get_range, advance,
}

-- A decoder that has consumed `pre` and has `rest` left.
abbrev pub at : List ℕ → List ℕ → Decoder
at pre rest = record { bytes = pre ++ rest; offset = length pre }

-- The input is a slice: its length is a `usize`.
abbrev pub Fits : List ℕ → List ℕ → List ℕ → Type 0
Fits pre bs rest = length pre + (length bs + length rest) < 2 ^ 64

-- Whatever stands before and behind `bs`, the action consumes `bs` and returns `a`.
pub record Reads {A : Type 0} (m : M A) (bs : List ℕ) (a : A) : Type 0 where
  pub run :
      (pre rest : List ℕ) → Fits pre bs rest → m (at pre (bs ++ rest)) ≡ ok (a, at (pre ++ bs) rest)

pub Reads-pure : {A : Type 0} (a : A) → Reads (pure a) [] a
Reads-pure a = record { run = λ pre rest h. rw (append-nil pre) }

-- A check that passes: `if !t { return Err(x) }` and `if t { return Err(x) }`.
pub Reads-test :
    (t : Bool) (x : RepositoryError) → t ≡ true → Reads (if t then pure tt else fail x) [] tt
Reads-test t x e = rw e (Reads-pure tt)

pub Reads-test_not :
    (t : Bool) (x : RepositoryError) → t ≡ false → Reads (if t then fail x else pure tt) [] tt
Reads-test_not t x e = rw e (Reads-pure tt)

module _ {A B : Type 0} {m : M A} (f : A → M B) {a : A} {b : B} {bs : List ℕ} where
  pub Reads-bind : {cs : List ℕ} → Reads m bs a → Reads (f a) cs b → Reads (m >>= f) (bs ++ cs) b
  Reads-bind {cs} hm hf = record {
    run = λ pre rest h. rw (append_assoc bs cs rest) (
        rw (hm.run pre (cs ++ rest) (omega (arith, length-append bs cs, length-append cs rest))) (
          hf.run (pre ++ bs) rest (omega (arith, length-append bs cs, length-append pre bs))
          ∙ rw (append_assoc pre bs cs)));
  }

  -- The same, where the rest of the block consumes nothing.
  pub Reads-then : Reads m bs a → Reads (f a) [] b → Reads (m >>= f) bs b
  Reads-then hm hf = rw append-nil at (Reads-bind hm hf)

-- An action that reads `bs` where nothing stands behind it.
pub record ReadsAll {A : Type 0} (m : M A) (bs : List ℕ) (a : A) : Type 0 where
  pub run : (pre : List ℕ) → Fits pre bs [] → m (at pre bs) ≡ ok (a, at (pre ++ bs) [])

module _ {A B : Type 0} {m : M A} (f : A → M B) {a : A} {b : B} {bs cs : List ℕ} where
  pub ReadsAll-bind : Reads m bs a → ReadsAll (f a) cs b → ReadsAll (m >>= f) (bs ++ cs) b
  ReadsAll-bind hm hf = record {
    run = λ pre h. rw (hm.run pre cs (omega (arith, length-append bs cs))) (
        hf.run (pre ++ bs) (omega (arith, length-append bs cs, length-append pre bs))
        ∙ rw (append_assoc pre bs cs));
  }

pub ReadsAll-last : {A : Type 0} {m : M A} {a : A} {bs : List ℕ} → Reads m bs a → ReadsAll m bs a
ReadsAll-last {bs = bs} hm = record { run = λ pre h. rw (append-nil bs) at (hm.run pre [] h) }

pub get_elem?-append {ℓ} :
    {A : Type ℓ} (xs : List A) (y : A) (ys : List A) → get_elem? (xs ++ y ∷ ys) (length xs) ≡ some y
get_elem?-append [] y ys = refl
get_elem?-append (x ∷ xs) y ys = get_elem?-append xs y ys

-- The decoder after a move over `bs`.
moved :
    (pre bs rest : List ℕ) (n : ℕ)
    → length bs ≡ n
    → ◌≡◌ {A = Decoder}
        (record { bytes = pre ++ (bs ++ rest); offset = length pre + n })
        (at (pre ++ bs) rest)
moved pre bs rest n e = rw (append_assoc pre bs rest, length-append pre bs, e)

pub advance-cons :
    (pre : List ℕ) (b : ℕ) (rest : List ℕ)
    → advance 1 (at pre (b ∷ rest)) ≡ ok (tt, at (pre ++ b ∷ []) rest)
unfolding advance
advance-cons pre b rest = ap (λ (d : Decoder). ok (tt, d)) (moved pre (b ∷ []) rest 1 refl)

-- `peek` and one step are `byte`.
pub Reads-advance : (b : ℕ) → Reads (advance 1) (b ∷ []) tt
Reads-advance b = record { run = λ pre rest h. advance-cons pre b rest }

get_elem?-end {ℓ} : {A : Type ℓ} (xs : List A) → get_elem? (xs ++ []) (length xs) ≡ none
get_elem?-end [] = refl
get_elem?-end (x ∷ xs) = get_elem?-end xs

-- At the end of the input nothing is read.
pub peek-nil : (pre : List ℕ) → peek (at pre []) ≡ err truncated_cbor_value
unfolding peek
peek-nil pre = rw (get_elem?-end pre)

pub byte-nil : (pre : List ℕ) → byte (at pre []) ≡ err truncated_cbor_value
unfolding byte
byte-nil pre = rw (get_elem?-end pre)

pub peek-cons :
    (pre : List ℕ) (b : ℕ) (rest : List ℕ) → peek (at pre (b ∷ rest)) ≡ ok (b, at pre (b ∷ rest))
unfolding peek
peek-cons pre b rest = rw (get_elem?-append pre b rest)

pub byte-cons :
    (pre : List ℕ) (b : ℕ) (rest : List ℕ)
    → byte (at pre (b ∷ rest)) ≡ ok (b, at (pre ++ b ∷ []) rest)
unfolding byte
byte-cons pre b rest =
    rw (get_elem?-append pre b rest)
      (ap (λ (d : Decoder). ok (b, d)) (moved pre (b ∷ []) rest 1 refl))

pub Reads-byte : (b : ℕ) → Reads byte (b ∷ []) b
Reads-byte b = record { run = λ pre rest h. byte-cons pre b rest }

pub get_range-append :
    (pre bs rest : List ℕ) (n : ℕ)
    → length bs ≡ n
    → get_range (pre ++ (bs ++ rest)) (length pre) (length pre + n) ≡ some bs
get_range-append pre bs rest n e =
    let fits : length pre + n ≤ length (pre ++ (bs ++ rest)) =
      omega (arith, length-append pre (bs ++ rest), length-append bs rest) in
    let start : length pre ≤ length pre + n = omega arith in
    let size : length pre + n - length pre ≡ length bs = omega arith in
    rw (le→leb _ _ start, le→leb _ _ fits, size, drop-append pre (bs ++ rest), take-append bs rest)

pub take_bytes-append :
    (n : ℕ) (pre bs rest : List ℕ)
    → length bs ≡ n
    → length pre + n < 2 ^ 64
    → take_bytes n (at pre (bs ++ rest)) ≡ ok (bs, at (pre ++ bs) rest)
unfolding take_bytes
take_bytes-append n pre bs rest e sum =
    let small : n < 2 ^ 64 = omega arith in
    rw (lt→ltb _ _ small, lt→ltb _ _ sum, get_range-append pre bs rest n e)
      (ap (λ (d : Decoder). ok (bs, d)) (moved pre bs rest n e))

pub Reads-take_bytes : (n : ℕ) (bs : List ℕ) → length bs ≡ n → Reads (take_bytes n) bs bs
Reads-take_bytes n bs e = record {
  run = λ pre rest h. take_bytes-append n pre bs rest e (omega arith);
}

pub Reads-take_array : (n : ℕ) (bs : List ℕ) → length bs ≡ n → Reads (take_array n) bs bs
unfolding take_array
Reads-take_array n bs e =
    Reads-then _ (Reads-take_bytes n bs e) (rw ((==_iff _ _).1 e) (Reads-pure bs))

-- All that is left is consumed: the end of the input.
pub finish-at : (pre : List ℕ) → finish (at pre []) ≡ ok (tt, at pre [])
unfolding finish
finish-at pre = rw (append-nil pre, (==_iff (length pre) _).1 refl)
