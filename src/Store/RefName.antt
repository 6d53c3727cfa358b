-- ===== src/Store/RefName.antt =====
-- `validate_ref_name` of bobr-store/src/ref_name.rs, and what a valid name is as a file name.
use bobr.Base.{
  ℕ, ◌≡◌, ◌<◌, ◌≢◌, refl, Bool, true, false, not, ◌&&◌, ◌||◌, List, [], ◌∷◌, All, all, leb, ◌==◌,
  if◌then◌else◌, bytes_eq, Result, ok, err, inl, inr, Bool-cases, arith,
}
use bobr.Repo.Tar.{is_empty}

pub data RefNameError : Type 0 where
  empty_name reserved_name invalid_character : RefNameError

-- `u8::is_ascii_alphanumeric`.
abbrev pub is_ascii_alphanumeric : ℕ → Bool
is_ascii_alphanumeric b =
    leb b'0' b && leb b b'9' || (leb b'A' b && leb b b'Z' || leb b'a' b && leb b b'z')

abbrev pub is_ref_name_byte : ℕ → Bool
is_ref_name_byte b = is_ascii_alphanumeric b || (b == b'.' || (b == b'_' || b == b'-'))

unfoldable pub validate_ref_name : List ℕ → Result RefNameError (Unit {0})
validate_ref_name name =
    if is_empty name
    then err empty_name
    else if bytes_eq name (b'.' ∷ []) || bytes_eq name (b'.' ∷ b'.' ∷ [])
    then err reserved_name
    else if not (all is_ref_name_byte name)
    then err invalid_character
    else ok tt

-- A name that stands for a file of the directory itself: no separator, no NUL, and ASCII only.
pub record IsFileName (name : List ℕ) : Type 0 where
  pub not_empty : is_empty name ≡ false
  pub not_dot : bytes_eq name (b'.' ∷ []) ≡ false
  pub not_parent : bytes_eq name (b'.' ∷ b'.' ∷ []) ≡ false
  pub plain : All (λ b. (b ≢ b'/') × (0 < b) × (b < 128)) name

plain_byte : (b : ℕ) → is_ref_name_byte b ≡ true → (b ≢ b'/') × (0 < b) × (b < 128)
plain_byte b h = (λ e. ground arith, ground arith, ground arith)

all-plain :
    (name : List ℕ)
    → all is_ref_name_byte name ≡ true
    → All (λ b. (b ≢ b'/') × (0 < b) × (b < 128)) name
all-plain [] h = tt
all-plain (b ∷ name) h = elim (Bool-cases (is_ref_name_byte b)) [
  | inl t ↦ (plain_byte b t, all-plain name (rw t at h))
  | inr f ↦ absurd (cc (rw f at h))
]

or_false : (a b : Bool) → (a || b) ≡ false → (a ≡ false) × (b ≡ false)
or_false true b h = absurd (cc h)
or_false false b h = (refl, h)

-- A name that validate_ref_name accepts is not empty, neither a dot nor two dots, and all its
-- bytes are ASCII and neither a slash nor NUL.
pub validate_ref_name-IsFileName :
    (name : List ℕ) → validate_ref_name name ≡ ok tt → IsFileName name
unfolding validate_ref_name
validate_ref_name-IsFileName name e = elim (Bool-cases (is_empty name)) [
  | inl t ↦ absurd (cc (rw t at e))
  | inr some_name ↦
      elim (Bool-cases (bytes_eq name (b'.' ∷ []) || bytes_eq name (b'.' ∷ b'.' ∷ []))) [
        | inl t ↦ absurd (cc (rw (some_name, t) at e))
        | inr dots ↦
            let (dot, parent) =
              or_false (bytes_eq name (b'.' ∷ [])) (bytes_eq name (b'.' ∷ b'.' ∷ [])) dots in
            elim (Bool-cases (all is_ref_name_byte name)) [
              | inr f ↦ absurd (cc (rw (some_name, dots, f) at e))
              | inl t ↦ record {
                not_empty = some_name;
                not_dot = dot;
                not_parent = parent;
                plain = all-plain name t;
              }
            ]
      ]
]
