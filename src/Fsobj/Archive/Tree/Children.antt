-- ===== src/Fsobj/Archive/Tree/Children.antt =====
-- The entries of a directory that `build_directory` makes, and the node at a path.
use bobr.Base.{
  ℕ, ◌≡◌, refl, sym, subst, Bool, true, false, ◌||◌, Option, none, some, List, [], ◌∷◌, ◌++◌,
  if◌then◌else◌, bytes_eq, bytes_eq_refl, eq_of_bytes_eq, Ordering, inl, inr, Bool-cases,
  Option-cases,
}
use bobr.Base.Order.{cmp, eq_of_cmp}
use bobr.Fsobj.Hash.{Node, directory_node, file_node, symlink_node, Entries, cons, nil}
use bobr.Fsobj.Archive.{
  Components, PendingEntry, file, directory, symlink, PendingEntries, components_eq, get,
}
use bobr.Fsobj.Archive.Tree.{
  insert_name, child_name, child_names, child_node, build_children, push_entry,
}

-- The entry of a directory.
unfoldable pub find : Entries → List ℕ → Option Node
find nil name = none
find (cons n node es) name = let rest = find es name in if bytes_eq n name then some node else rest

-- The node at a path.
unfoldable pub lookup : Node → Components → Option Node
lookup node [] = some node
lookup (file_node f) (c ∷ cs) = none
lookup (symlink_node t) (c ∷ cs) = none
lookup (directory_node es) (c ∷ cs) = elim (find es c) [ none ↦ none | some node ↦ lookup node cs ]

-- What an archive says of a node.
abbrev pub view : Option Node → Option PendingEntry
view none = none
view (some (file_node f)) = some (file f)
view (some (symlink_node t)) = some (symlink t)
view (some (directory_node es)) = some directory

abbrev pub has : List ℕ → List (List ℕ) → Bool
has c [] = false
has c (n ∷ ns) = bytes_eq n c || has c ns

abbrev is_name : List ℕ → Option (List ℕ) → Bool
is_name c none = false
is_name c (some n) = bytes_eq n c

abbrev is_some : Option PendingEntry → Bool
is_some none = false
is_some (some entry) = true

child_name-components_eq :
    (prefix path : Components) (c : List ℕ)
    → components_eq path (prefix ++ c ∷ []) ≡ is_name c (child_name prefix path)
unfolding child_name components_eq
child_name-components_eq [] [] c = refl
child_name-components_eq [] (d ∷ []) c = elim (Bool-cases (bytes_eq d c)) [
  | inl t ↦ rw t refl
  | inr f ↦ rw f refl
]
child_name-components_eq [] (d ∷ b ∷ ds) c = elim (Bool-cases (bytes_eq d c)) [
  | inl t ↦ rw t refl
  | inr f ↦ rw f refl
]
child_name-components_eq (a ∷ as_) [] c = refl
child_name-components_eq (a ∷ prefix) (d ∷ ds) c = elim (Bool-cases (bytes_eq d a)) [
  | inl t ↦
      let same = eq_of_bytes_eq d a t in
      let again : bytes_eq a d ≡ true =
        subst (λ x. bytes_eq a x ≡ true) (sym same) (bytes_eq_refl a) in
      rw (t, again) (child_name-components_eq prefix ds c)
  | inr f ↦ elim (Bool-cases (bytes_eq a d)) [
    | inl t ↦
        let same = eq_of_bytes_eq a d t in
        let again : bytes_eq d a ≡ true =
          subst (λ x. bytes_eq d x ≡ true) (sym same) (bytes_eq_refl d) in
        absurd (cc (f, again))
    | inr g ↦ rw (f, g) refl
  ]
]

has-insert_name :
    (c name : List ℕ) (names : List (List ℕ))
    → has c (insert_name name names) ≡ (bytes_eq name c || has c names)
unfolding insert_name
has-insert_name c name [] = refl
has-insert_name c name (n ∷ ns) = order (has-insert_name c name ns) (cmp name n) refl
  where
    swap : (a b h : Bool) → (a || (b || h)) ≡ (b || (a || h))
    swap true true h = refl
    swap true false h = refl
    swap false b h = refl

    twice : (a h : Bool) → (a || h) ≡ (a || (a || h))
    twice true h = refl
    twice false h = refl

    order :
        has c (insert_name name ns) ≡ (bytes_eq name c || has c ns)
        → (o : Ordering) → cmp name n ≡ o
        → has c (insert_name name (n ∷ ns)) ≡ (bytes_eq name c || has c (n ∷ ns))
    order rest Ordering.lt e = rw (insert_name, e) refl
    order rest Ordering.eq e =
        rw (insert_name, e, eq_of_cmp name n e) (twice (bytes_eq n c) (has c ns))
    order rest Ordering.gt e =
        rw (insert_name, e, rest) (swap (bytes_eq n c) (bytes_eq name c) (has c ns))

-- A name is below a prefix when there is an entry.
pub has-child_names :
    (entries : PendingEntries) (prefix : Components) (c : List ℕ)
    → has c (child_names entries prefix) ≡ is_some (get entries (prefix ++ c ∷ []))
unfolding child_names get
has-child_names [] prefix c = refl
has-child_names ((path, entry) ∷ entries) prefix c =
    let rest = has-child_names entries prefix c in
    let key = child_name-components_eq prefix path c in
    elim (Option-cases (child_name prefix path)) [
      | inl e ↦ let off = rw e at key in rw (child_names, get, e, off) rest
      | inr (name, e) ↦
          let on = rw e at key in
          elim (Bool-cases (bytes_eq name c)) [
            | inl t ↦
                rw (child_names, get, e, on, has-insert_name c name (child_names entries prefix), t)
                  refl
            | inr f ↦
                rw (child_names, get, e, on, has-insert_name c name (child_names entries prefix), f)
                  rest
          ]
    ]

push_entry-some :
    (name : List ℕ) (node : Option Node) (entries : Option Entries) (es : Entries)
    → push_entry name node entries ≡ some es
    → (n : Node) × (rest : Entries) × (node ≡ some n)
      × (entries ≡ some rest)
      × (cons name n rest ≡ es)
push_entry-some name none entries es e = absurd (cc e)
push_entry-some name (some n) none es e = absurd (cc e)
push_entry-some name (some n) (some rest) es e = (n, rest, refl, refl, cc e)

-- The entry of each name, and no other.
pub find-build_children :
    (build : Components → Option Node) (entries : PendingEntries) (prefix : Components) (c : List ℕ)
    (names : List (List ℕ)) (es : Entries)
    → build_children build entries prefix names ≡ some es
    → (has c names ≡ true
        → (n : Node) × (find es c ≡ some n)
          × (child_node build (prefix ++ c ∷ []) (get entries (prefix ++ c ∷ [])) ≡ some n))
      × (has c names ≡ false → find es c ≡ none)
unfolding build_children find
find-build_children build entries prefix c [] es e =
    let same : nil ≡ es = cc e in
    (λ t. absurd (cc t), λ f. subst (λ (s : Entries). find s c ≡ none) same refl)
find-build_children build entries prefix c (name ∷ names) es e =
    let (n, rest, one, made, same) =
      push_entry-some name
        (child_node build (prefix ++ name ∷ []) (get entries (prefix ++ name ∷ [])))
        (build_children build entries prefix names) es e in
    let (there, gone) = find-build_children build entries prefix c names rest made in
    elim (Bool-cases (bytes_eq name c)) [
      | inl t ↦
          let eq = eq_of_bytes_eq name c t in
          (
            λ h. (
              n,
              subst (λ (s : Entries). find s c ≡ some n) same (rw (find, t) refl),
              subst
                  (λ (d : List ℕ).
                    child_node build (prefix ++ d ∷ []) (get entries (prefix ++ d ∷ [])) ≡ some n)
                  eq one,
            ),
            λ h. absurd (cc (rw t at h)),
          )
      | inr f ↦ (
        λ h.
            let (m, found, is) = there (rw f at h) in
            (m, subst (λ (s : Entries). find s c ≡ some m) same (rw (find, f) found), is),
        λ h. subst (λ (s : Entries). find s c ≡ none) same (rw (find, f) (gone (rw f at h))),
      )
    ]
