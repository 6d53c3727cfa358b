-- ===== src/Repo/Tar/Normalize.antt =====
-- Paths: `normalize_path`, its components and its result.
use bobr.Base.{
  ℕ, suc, ◌+◌, ◌≤◌, ◌≡◌, refl, sym, ap, ◌∙◌, subst, Bool, true, false, ◌||◌, List, [], ◌∷◌, ◌++◌,
  append_assoc, append-nil, length, All, ltb, ◌==◌, if◌then◌else◌, bytes_eq, ok, >>=-eq-ok, inl,
  inr, Bool-cases, arith,
}
use bobr.Repo.Tar.{
  max_tar_path_bytes, max_tar_component_bytes, max_tar_depth, push_front, split_slash, is_empty,
  trim_slashes, push_component, normalize_components, starts_with_slash, normalize_path,
}

-- No slash.
abbrev pub NoSlash : List ℕ → Type 0
NoSlash c = All (λ b. (b == b'/') ≡ false) c

-- A component that `normalize_path` keeps.
pub record IsComponent (c : List ℕ) : Type 0 where
  pub no_slash : NoSlash c
  pub not_empty : is_empty c ≡ false
  pub not_dot : bytes_eq c (b'.' ∷ []) ≡ false
  pub not_parent : bytes_eq c (b'.' ∷ b'.' ∷ []) ≡ false
  pub short : length c ≤ max_tar_component_bytes

-- The components with slashes between them, behind what is there already.
abbrev pub join_from : List ℕ → List (List ℕ) → List ℕ
join_from path [] = path
join_from path (c ∷ cs) = join_from (push_component path c) cs

push_front-NoSlash :
    (b : ℕ) (cs : List (List ℕ))
    → (b == b'/') ≡ false
    → All NoSlash cs
    → All NoSlash (push_front b cs)
push_front-NoSlash b [] h all = ((h, tt), tt)
push_front-NoSlash b (c ∷ cs) h all = ((h, all.0), all.1)

pub split_slash-NoSlash : (path : List ℕ) → All NoSlash (split_slash path)
unfolding split_slash
split_slash-NoSlash [] = (tt, tt)
split_slash-NoSlash (b ∷ path) = elim (Bool-cases (b == b'/')) [
  | inl t ↦ rw t (tt, split_slash-NoSlash path)
  | inr f ↦ rw f (push_front-NoSlash b (split_slash path) f (split_slash-NoSlash path))
]

-- The loop keeps components only, and counts them.
normalize_components_sound :
    (components : List (List ℕ)) (path : List ℕ) (depth : ℕ) (result : List ℕ × ℕ)
    → All NoSlash components
    → normalize_components components path depth ≡ ok result
    → (kept : List (List ℕ)) × All IsComponent kept
      × (result.0 ≡ join_from path kept)
      × (result.1 ≡ depth + length kept)
unfolding normalize_components
normalize_components_sound [] path depth result plain e =
    let same : (path, depth) ≡ result = cc e in
    (
      [],
      tt,
      sym (ap (λ (r : List ℕ × ℕ). r.0) same),
      sym (ap (λ (r : List ℕ × ℕ). r.1) same) ∙ omega arith,
    )
normalize_components_sound (c ∷ cs) path depth result plain e = elim (Bool-cases (is_empty c)) [
  | inl t ↦ normalize_components_sound cs path depth result plain.1 (rw t at e)
  | inr not_empty ↦ elim (Bool-cases (bytes_eq c (b'.' ∷ []))) [
    | inl t ↦ normalize_components_sound cs path depth result plain.1 (rw (not_empty, t) at e)
    | inr not_dot ↦ elim (Bool-cases (bytes_eq c (b'.' ∷ b'.' ∷ []))) [
      | inl t ↦ absurd (cc (rw (not_empty, not_dot, t) at e))
      | inr not_parent ↦ elim (Bool-cases (ltb max_tar_component_bytes (length c))) [
        | inl t ↦ absurd (cc (rw (not_empty, not_dot, not_parent, t) at e))
        | inr short ↦
            let (kept, plain_kept, joined, count) =
              normalize_components_sound cs (push_component path c) (depth + 1) result plain.1
                (rw (not_empty, not_dot, not_parent, short) at e) in
            (
              c ∷ kept,
              (
                record {
                  no_slash = plain.0;
                  not_empty = not_empty;
                  not_dot = not_dot;
                  not_parent = not_parent;
                  short = ground arith;
                },
                plain_kept,
              ),
              joined,
              omega arith,
            )
      ]
    ]
  ]
]

normalize_components_complete :
    (kept : List (List ℕ)) (path : List ℕ) (depth : ℕ)
    → All IsComponent kept
    → normalize_components kept path depth ≡ ok (join_from path kept, depth + length kept)
unfolding normalize_components
normalize_components_complete [] path depth all =
    let same : depth ≡ depth + 0 = omega arith in ap (λ d. ok (path, d)) same
normalize_components_complete (c ∷ cs) path depth all =
    let short : ltb max_tar_component_bytes (length c) ≡ false =
      (let le = all.0.short in ground arith) in
    let count : depth + 1 + length cs ≡ depth + suc (length cs) = omega arith in
    rw (all.0.not_empty, all.0.not_dot, all.0.not_parent, short)
      (normalize_components_complete cs (push_component path c) (depth + 1) all.1
        ∙ ap (λ d. ok (join_from (push_component path c) cs, d)) count)

-- The components behind the first.
abbrev pub tail_from : List (List ℕ) → List ℕ
tail_from [] = []
tail_from (c ∷ cs) = b'/' ∷ (c ++ tail_from cs)

pub is_empty-append : (xs ys : List ℕ) → is_empty xs ≡ false → is_empty (xs ++ ys) ≡ false
is_empty-append [] ys h = absurd (cc h)
is_empty-append (x ∷ xs) ys h = refl

join_from-tail :
    (path : List ℕ) (cs : List (List ℕ))
    → is_empty path ≡ false
    → join_from path cs ≡ path ++ tail_from cs
join_from-tail path [] h = sym (append-nil path)
join_from-tail path (c ∷ cs) h = rw h (
    join_from-tail (path ++ b'/' ∷ c) cs (is_empty-append path (b'/' ∷ c) h)
    ∙ append_assoc path (b'/' ∷ c) (tail_from cs))

pub split_slash-append_slash :
    (c rest : List ℕ) → NoSlash c → split_slash (c ++ b'/' ∷ rest) ≡ c ∷ split_slash rest
unfolding split_slash
split_slash-append_slash [] rest h = refl
split_slash-append_slash (b ∷ c) rest h = rw (h.0, split_slash-append_slash c rest h.1)

pub split_slash-plain : (c : List ℕ) → NoSlash c → split_slash c ≡ c ∷ []
unfolding split_slash
split_slash-plain [] h = refl
split_slash-plain (b ∷ c) h = rw (h.0, split_slash-plain c h.1)

split_slash-tail :
    (c : List ℕ) (cs : List (List ℕ))
    → NoSlash c
    → All IsComponent cs
    → split_slash (c ++ tail_from cs) ≡ c ∷ cs
split_slash-tail c [] h all = ap split_slash (append-nil c) ∙ split_slash-plain c h
split_slash-tail c (d ∷ cs) h all =
    split_slash-append_slash c (d ++ tail_from cs) h
    ∙ ap (λ l. c ∷ l) (split_slash-tail d cs all.0.no_slash all.1)

trim_slashes-append :
    (c rest : List ℕ) → NoSlash c → trim_slashes rest ≡ rest → trim_slashes (c ++ rest) ≡ c ++ rest
unfolding trim_slashes
trim_slashes-append [] rest h e = e
trim_slashes-append (b ∷ c) rest h e = rw (h.0, trim_slashes-append c rest h.1 e)

trim_slashes-tail :
    (cs : List (List ℕ)) → All IsComponent cs → trim_slashes (tail_from cs) ≡ tail_from cs
unfolding trim_slashes
trim_slashes-tail [] all = refl
trim_slashes-tail (c ∷ cs) all =
    let same = trim_slashes-append c (tail_from cs) all.0.no_slash (trim_slashes-tail cs all.1) in
    let some_left = is_empty-append c (tail_from cs) all.0.not_empty in rw (same, some_left)

pub starts_with_slash-append :
    (c rest : List ℕ) → NoSlash c → is_empty c ≡ false → starts_with_slash (c ++ rest) ≡ false
starts_with_slash-append [] rest h e = absurd (cc e)
starts_with_slash-append (b ∷ c) rest h e = h.0

-- What `normalize_path` returns: plain components between slashes, within the limits.
pub record IsNormalized (path : List ℕ) : Type 0 where
  pub first : List ℕ
  pub others : List (List ℕ)
  pub components : All IsComponent (first ∷ others)
  pub joined : path ≡ join_from [] (first ∷ others)
  pub depth : suc (length others) ≤ max_tar_depth
  pub size : length path ≤ max_tar_path_bytes

IsNormalized-of_kept :
    (path : List ℕ) (kept : List (List ℕ)) (depth : ℕ)
    → All IsComponent kept
    → path ≡ join_from [] kept
    → depth ≡ 0 + length kept
    → is_empty path ≡ false
    → depth ≤ max_tar_depth
    → length path ≤ max_tar_path_bytes
    → IsNormalized path
IsNormalized-of_kept path [] depth all joined count left low small = absurd (cc (rw joined at left))
IsNormalized-of_kept path (c ∷ cs) depth all joined count left low small = record {
  first = c;
  others = cs;
  components = all;
  joined = joined;
  depth = omega arith;
  size = small;
}

-- Whatever path normalize_path accepts, with or without the directory flag, the result is one or
-- more components joined by single slashes, none of them empty, a dot, two dots, longer than 255
-- bytes or with a slash inside, at most 1024 of them and at most 65536 bytes in all.
pub normalize_path-IsNormalized :
    (path result : List ℕ) (directory : Bool)
    → normalize_path path directory ≡ ok result
    → IsNormalized result
unfolding normalize_path
normalize_path-IsNormalized path result directory e = elim (Bool-cases (starts_with_slash path)) [
  | inl t ↦ absurd (cc (rw t at e))
  | inr relative ↦
      let components = split_slash (if directory then trim_slashes path else path) in
      let ((normalized, depth), run, last) =
        >>=-eq-ok (normalize_components components [] 0) _ (rw relative at e) in
      let (kept, all, joined, count) =
        normalize_components_sound components [] 0 (normalized, depth) (split_slash-NoSlash _)
          run in
      elim (Bool-cases (is_empty normalized)) [
        | inl t ↦ absurd (cc (rw t at last))
        | inr left ↦
            elim (Bool-cases
              (ltb max_tar_path_bytes (length normalized) || ltb max_tar_depth depth)) [
                | inl t ↦ absurd (cc (rw (left, t) at last))
                | inr fits ↦
                    let same : normalized ≡ result = cc (rw (left, fits) at last) in
                    subst IsNormalized same (
                      IsNormalized-of_kept normalized kept depth all joined count left
                        (ground arith) (ground arith))
              ]
      ]
]

normalize_path-fixed :
    (path : List ℕ) (directory : Bool) → IsNormalized path → normalize_path path directory ≡ ok path
unfolding normalize_path
normalize_path-fixed path directory h =
    let c = h.first in
    let cs = h.others in
    let plain : NoSlash c = h.components.0.no_slash in
    let written : path ≡ c ++ tail_from cs =
      h.joined ∙ join_from-tail c cs h.components.0.not_empty in
    let relative : starts_with_slash path ≡ false =
      rw written (starts_with_slash-append c (tail_from cs) plain h.components.0.not_empty) in
    let trimmed : trim_slashes path ≡ path =
      rw written
        (trim_slashes-append c (tail_from cs) plain (trim_slashes-tail cs h.components.1)) in
    let kept : (if directory then trim_slashes path else path) ≡ path = either directory trimmed in
    let pieces : split_slash path ≡ c ∷ cs =
      rw written (split_slash-tail c cs plain h.components.1) in
    let count : 0 + length (c ∷ cs) ≡ suc (length cs) = omega arith in
    let run : normalize_components (c ∷ cs) [] 0 ≡ ok (path, suc (length cs)) =
      normalize_components_complete (c ∷ cs) [] 0 h.components
      ∙ ap (λ n. ok (join_from [] (c ∷ cs), n)) count
      ∙ ap (λ p. ok (p, suc (length cs))) (sym h.joined) in
    let left : is_empty path ≡ false =
      rw written (is_empty-append c (tail_from cs) h.components.0.not_empty) in
    let small : ltb max_tar_path_bytes (length path) ≡ false = (let le = h.size in ground arith) in
    let low : ltb max_tar_depth (suc (length cs)) ≡ false = (let le = h.depth in ground arith) in
    rw (relative, kept, pieces, run, left, small, low)
  where
    either :
        (directory : Bool)
        → trim_slashes path ≡ path
        → (if directory then trim_slashes path else path) ≡ path
    either true e = e
    either false e = refl

-- A path that normalize_path returned is returned unchanged by another normalize_path, whatever
-- its directory flag.
pub normalize_path_idem :
    (path result : List ℕ) (directory again : Bool)
    → normalize_path path directory ≡ ok result
    → normalize_path result again ≡ ok result
normalize_path_idem path result directory again e =
    normalize_path-fixed result again (normalize_path-IsNormalized path result directory e)
