-- ===== src/Repo/Tar/Path.antt =====
-- The path fields of a header: `ustar_path_fields` and the path of `parse_header`.
use bobr.Base.{
  ℕ, ◌≤◌, ◌≡◌, false, some, List, [], ◌∷◌, ◌++◌, append_assoc, length, ltb, leb, ◌==◌, ==_iff, inl,
  inr, Bool-cases, Option-cases, arith,
}
use bobr.Repo.Tar.{last_split, ustar_path_fields, header_path, starts_with_slash}

last_split-whole :
    (before path name prefix : List ℕ)
    → last_split before path ≡ some (name, prefix)
    → (prefix ++ b'/' ∷ name ≡ before ++ path) × (length name ≤ 100) × (length prefix ≤ 155)
unfolding last_split
last_split-whole before [] name prefix e = absurd (cc e)
last_split-whole before (b ∷ path) name prefix e =
    elim (Option-cases (last_split (before ++ b ∷ []) path)) [
      | inr ((n, p), later) ↦
          let (whole, small, short) = last_split-whole (before ++ b ∷ []) path n p later in
          let same : some (n, p) ≡ some (name, prefix) = rw later at e in
          let same_name : n ≡ name = cc same in
          let same_prefix : p ≡ prefix = cc same in
          (
            rw (← same_name, ← same_prefix, whole) (append_assoc before (b ∷ []) path),
            rw (← same_name) small,
            rw (← same_prefix) short,
          )
      | inl last ↦ elim (Bool-cases (b == b'/')) [
        | inr f ↦ absurd (cc (rw (last, f) at e))
        | inl t ↦ elim (Bool-cases (leb (length before) 155)) [
          | inr f ↦ absurd (cc (rw (last, t, f) at e))
          | inl short ↦ elim (Bool-cases (leb (length path) 100)) [
            | inr f ↦ absurd (cc (rw (last, t, short, f) at e))
            | inl small ↦
                let same : some (path, before) ≡ some (name, prefix) =
                  rw (last, t, short, small) at e in
                let same_name : path ≡ name = cc same in
                let same_prefix : before ≡ prefix = cc same in
                let slash : b ≡ b'/' = (==_iff b b'/').0 t in
                (
                  rw (← same_name, ← same_prefix, slash),
                  rw (← same_name) (ground arith),
                  rw (← same_prefix) (ground arith),
                )
          ]
        ]
      ]
    ]

fields-of_split :
    (path name prefix : List ℕ)
    → starts_with_slash path ≡ false
    → prefix ++ b'/' ∷ name ≡ path
    → header_path name prefix ≡ path
unfolding header_path
fields-of_split path name [] relative whole = absurd (cc (rw (← whole) at relative))
fields-of_split path name (b ∷ bs) relative whole = whole

-- If ustar_path_fields splits a path that does not begin with a slash into name and prefix, they
-- fit in 100 and 155 bytes and parse_header makes the same path from them.
pub header_path-ustar_path_fields :
    (path name prefix : List ℕ)
    → starts_with_slash path ≡ false
    → ustar_path_fields path ≡ some (name, prefix)
    → (header_path name prefix ≡ path) × (length name ≤ 100) × (length prefix ≤ 155)
unfolding ustar_path_fields header_path
header_path-ustar_path_fields path name prefix relative e =
    elim (Bool-cases (leb (length path) 100)) [
      | inl t ↦
          let same : some (path, []) ≡ some (name, prefix) = rw t at e in
          let same_name : path ≡ name = cc same in
          let same_prefix : [] ≡ prefix = cc same in
          (
            rw (← same_name, ← same_prefix),
            rw (← same_name) (ground arith),
            rw (← same_prefix) (omega arith),
          )
      | inr f ↦ elim (Bool-cases (ltb 256 (length path))) [
        | inl t ↦ absurd (cc (rw (f, t) at e))
        | inr g ↦
            let (whole, small, short) = last_split-whole [] path name prefix (rw (f, g) at e) in
            (fields-of_split path name prefix relative whole, small, short)
      ]
    ]
