-- ===== src/Fsobj/Archive/Paths.antt =====
-- `normalize_archive_path` and the components that it returns.
use bobr.Base.{
  ℕ, ◌≡◌, refl, ap, ◌∙◌, subst, ◌&&◌, Bool, true, false, List, [], ◌∷◌, ◌++◌, append-nil, All,
  bytes_eq, if◌then◌else◌, ◌==◌, Result, ok, err, >>=-eq-ok, inl, inr, Bool-cases,
}
use bobr.Repo.Tar.{split_slash, is_empty, starts_with_slash}
use bobr.Repo.Tar.Normalize.{
  NoSlash, tail_from, split_slash-NoSlash, split_slash-append_slash, split_slash-plain,
  is_empty-append, starts_with_slash-append,
}
use bobr.Fsobj.Archive.{
  Error, Components, plain_components, is_nil, strip_dot_slash, normalize_archive_path,
  invalid_archive_path, empty_path,
}

-- A component of an archive path.
pub record IsPlain (c : List ℕ) : Type 0 where
  pub no_slash : NoSlash c
  pub not_empty : is_empty c ≡ false
  pub not_dot : bytes_eq c (b'.' ∷ []) ≡ false
  pub not_parent : bytes_eq c (b'.' ∷ b'.' ∷ []) ≡ false

-- The components with slashes between them.
abbrev pub join : Components → List ℕ
join [] = []
join (c ∷ cs) = c ++ tail_from cs

plain_components-IsPlain :
    (cs kept : Components) → All NoSlash cs → plain_components cs ≡ ok kept → All IsPlain kept
unfolding plain_components
plain_components-IsPlain [] kept plain e = subst (All IsPlain) (nil_eq e) tt
  where
    nil_eq : {xs ys : Components} → ◌≡◌ {A = Result Error Components} (ok xs) (ok ys) → xs ≡ ys
    nil_eq e = cc e
plain_components-IsPlain (c ∷ cs) kept plain e = elim (Bool-cases (is_empty c)) [
  | inl t ↦ plain_components-IsPlain cs kept plain.1 (rw t at e)
  | inr not_empty ↦ elim (Bool-cases (bytes_eq c (b'.' ∷ []))) [
    | inl t ↦ plain_components-IsPlain cs kept plain.1 (rw (not_empty, t) at e)
    | inr not_dot ↦ elim (Bool-cases (bytes_eq c (b'.' ∷ b'.' ∷ []))) [
      | inl t ↦ absurd (cc (rw (not_empty, not_dot, t) at e))
      | inr not_parent ↦
          let (rest, run, last) =
            >>=-eq-ok (plain_components cs) _ (rw (not_empty, not_dot, not_parent) at e) in
          let same : c ∷ rest ≡ kept = cc last in
          subst (All IsPlain) same (
            record {
              no_slash = plain.0;
              not_empty = not_empty;
              not_dot = not_dot;
              not_parent = not_parent;
            },
            plain_components-IsPlain cs rest plain.1 run,
          )
    ]
  ]
]

plain_components-fixed : (cs : Components) → All IsPlain cs → plain_components cs ≡ ok cs
unfolding plain_components
plain_components-fixed [] h = refl
plain_components-fixed (c ∷ cs) h =
    rw (h.0.not_empty, h.0.not_dot, h.0.not_parent, plain_components-fixed cs h.1)

split_slash-join :
    (c : List ℕ) (cs : Components) → All IsPlain (c ∷ cs) → split_slash (c ++ tail_from cs) ≡ c ∷ cs
split_slash-join c [] h = ap split_slash (append-nil c) ∙ split_slash-plain c h.0.no_slash
split_slash-join c (d ∷ cs) h =
    split_slash-append_slash c (d ++ tail_from cs) h.0.no_slash
    ∙ ap (λ l. c ∷ l) (split_slash-join d cs h.1)

-- The name of the current directory alone.
dot_eq : (a : ℕ) → (a == b'.') ≡ true → bytes_eq (a ∷ []) (b'.' ∷ []) ≡ true
unfolding bytes_eq
dot_eq a t = rw t

and_false : (t : Bool) (xs ys : List ℕ) → (if t && false then ys else xs) ≡ xs
and_false true xs ys = refl
and_false false xs ys = refl

-- A plain component does not begin with `./`.
strip_dot_slash-append : (c rest : List ℕ) → IsPlain c → strip_dot_slash (c ++ rest) ≡ c ++ rest
strip_dot_slash-append [] rest h = absurd (let e = h.not_empty in cc e)
strip_dot_slash-append (a ∷ []) [] h = refl
strip_dot_slash-append (a ∷ []) (b ∷ rest) h = elim (Bool-cases (a == b'.')) [
  | inr f ↦ rw f
  | inl t ↦ absurd (let dot = h.not_dot in let e = dot_eq a t in cc (dot, e))
]
strip_dot_slash-append (a ∷ b ∷ c) rest h =
    rw (h.no_slash.1.0) (and_false (a == b'.') (a ∷ b ∷ (c ++ rest)) (c ++ rest))

normalize_archive_path-join :
    (c : List ℕ) (cs : Components)
    → All IsPlain (c ∷ cs)
    → normalize_archive_path (join (c ∷ cs)) ≡ ok (c ∷ cs)
unfolding normalize_archive_path
normalize_archive_path-join c cs h = rw (
  strip_dot_slash-append c (tail_from cs) h.0,
  is_empty-append c (tail_from cs) h.0.not_empty,
  starts_with_slash-append c (tail_from cs) h.0.no_slash h.0.not_empty,
  split_slash-join c cs h,
  plain_components-fixed (c ∷ cs) h,
)

-- What an archive path is.
abbrev pub IsArchivePath : Components → Type 0
IsArchivePath cs = (is_nil cs ≡ false) × All IsPlain cs

-- Whatever bytes normalize_archive_path accepts, the result is one or more components, none of
-- them empty, a dot, two dots or with a slash inside, and their text with single slashes is
-- normalized to the same components.
pub normalize_archive_path-IsArchivePath :
    (raw : List ℕ) (cs : Components)
    → normalize_archive_path raw ≡ ok cs
    → IsArchivePath cs × (normalize_archive_path (join cs) ≡ ok cs)
unfolding normalize_archive_path
normalize_archive_path-IsArchivePath raw cs e = elim (Bool-cases (is_empty (strip_dot_slash raw))) [
  | inl t ↦ absurd (cc (rw t at e))
  | inr some_path ↦ elim (Bool-cases (starts_with_slash (strip_dot_slash raw))) [
    | inl t ↦ absurd (cc (rw (some_path, t) at e))
    | inr relative ↦
        let (kept, run, last) =
          >>=-eq-ok (plain_components (split_slash (strip_dot_slash raw))) _
            (rw (some_path, relative) at e) in
        let plain =
          plain_components-IsPlain (split_slash (strip_dot_slash raw)) kept
            (split_slash-NoSlash (strip_dot_slash raw)) run in
        kept_lem kept plain last
  ]
]
  where
    kept_lem :
        (kept : Components)
        → All IsPlain kept
        → (if is_nil kept then err (invalid_archive_path empty_path) else ok kept) ≡ ok cs
        → IsArchivePath cs × (normalize_archive_path (join cs) ≡ ok cs)
    kept_lem [] plain last = absurd (cc last)
    kept_lem (c ∷ kept) plain last =
        let same : c ∷ kept ≡ cs = cc last in
        subst (λ (ds : Components). IsArchivePath ds × (normalize_archive_path (join ds) ≡ ok ds))
          same ((refl, plain), normalize_archive_path-join c kept plain)
