-- ===== src/Fsobj/Archive/Insert.antt =====
-- The entries before and after `insert_entry`, and the parents of an entry.
use bobr.Base.{
  ℕ, ◌≡◌, refl, ap, ◌∙◌, sym, subst, true, none, some, List, [], ◌∷◌, ◌++◌, if◌then◌else◌, bytes_eq,
  bytes_eq_refl, eq_of_bytes_eq, append_assoc, ok, err, >>=-eq-ok, inl, inr, Bool-cases,
  Option-cases,
}
use bobr.Fsobj.Hash.{EntryKind}
use bobr.Fsobj.Archive.{
  Components, PendingEntry, file, directory, symlink, PendingEntries, components_eq, get,
  insert_implicit_parents, insert_pending, insert_entry, same_kind, pending_kind, duplicate_entry,
  kind_conflict,
}

-- What was there is there still.
abbrev pub Keeps : PendingEntries → PendingEntries → Type 0
Keeps entries later =
    (path : Components) (entry : PendingEntry)
    → get entries path ≡ some entry
    → get later path ≡ some entry

-- Each of the proper parents of a path is a directory.
abbrev pub HaveParents : PendingEntries → Components → Components → Type 0
HaveParents entries parent [] = Unit
HaveParents entries parent (c ∷ []) = Unit
HaveParents entries parent (c ∷ d ∷ cs) =
    (get entries (parent ++ c ∷ []) ≡ some directory)
    × HaveParents entries (parent ++ c ∷ []) (d ∷ cs)

pub components_eq_refl : (cs : Components) → components_eq cs cs ≡ true
unfolding components_eq
components_eq_refl [] = refl
components_eq_refl (c ∷ cs) = rw (bytes_eq_refl c, components_eq_refl cs)

pub eq_of_components_eq : (cs ds : Components) → components_eq cs ds ≡ true → cs ≡ ds
unfolding components_eq
eq_of_components_eq [] [] t = refl
eq_of_components_eq [] (d ∷ ds) t = absurd (cc t)
eq_of_components_eq (c ∷ cs) [] t = absurd (cc t)
eq_of_components_eq (c ∷ cs) (d ∷ ds) t = elim (Bool-cases (bytes_eq c d)) [
  | inr f ↦ absurd (cc (rw f at t))
  | inl same ↦
      let head = eq_of_bytes_eq c d same in
      let tail = eq_of_components_eq cs ds (rw same at t) in cc (head, tail)
]

get-cons :
    (entries : PendingEntries) (path : Components) (entry : PendingEntry)
    → get ((path, entry) ∷ entries) path ≡ some entry
unfolding get
get-cons entries path entry = rw (components_eq_refl path)

cons-Keeps :
    (entries : PendingEntries) (path : Components) (entry : PendingEntry)
    → get entries path ≡ none
    → Keeps entries ((path, entry) ∷ entries)
unfolding get
cons-Keeps entries path entry new other old e = elim (Bool-cases (components_eq path other)) [
  | inr f ↦ rw f e
  | inl t ↦
      let same = eq_of_components_eq path other t in
      absurd (let gone = rw same at new in cc (gone, e))
]

HaveParents-Keeps :
    (entries later : PendingEntries) (parent cs : Components)
    → Keeps entries later
    → HaveParents entries parent cs
    → HaveParents later parent cs
HaveParents-Keeps entries later parent [] keeps h = tt
HaveParents-Keeps entries later parent (c ∷ []) keeps h = tt
HaveParents-Keeps entries later parent (c ∷ d ∷ cs) keeps h = (
  keeps (parent ++ c ∷ []) directory h.0,
  HaveParents-Keeps entries later (parent ++ c ∷ []) (d ∷ cs) keeps h.1,
)

insert_implicit_parents-HaveParents :
    (cs parent : Components) (entries later : PendingEntries)
    → insert_implicit_parents parent cs entries ≡ ok later
    → Keeps entries later × HaveParents later parent cs
unfolding insert_implicit_parents
insert_implicit_parents-HaveParents [] parent entries later e =
    let same : entries ≡ later = cc e in
    (λ path entry h. subst (λ (s : PendingEntries). get s path ≡ some entry) same h, tt)
insert_implicit_parents-HaveParents (c ∷ []) parent entries later e =
    let same : entries ≡ later = cc e in
    (λ path entry h. subst (λ (s : PendingEntries). get s path ≡ some entry) same h, tt)
insert_implicit_parents-HaveParents (c ∷ d ∷ cs) parent entries later e =
    let path = parent ++ c ∷ [] in
    elim (Option-cases (get entries (parent ++ c ∷ []))) [
      | inl new ↦
          let (keeps, below) =
            insert_implicit_parents-HaveParents (d ∷ cs) path ((path, directory) ∷ entries) later
              (rw (insert_implicit_parents, new) at e) in
          (
            λ q k h. keeps q k (cons-Keeps entries path directory new q k h),
            (keeps path directory (get-cons entries path directory), below),
          )
      | inr (directory, old) ↦
          let (keeps, below) =
            insert_implicit_parents-HaveParents (d ∷ cs) path entries later
              (rw (insert_implicit_parents, old) at e) in
          (keeps, (keeps path directory old, below))
      | inr (file f, old) ↦ absurd (cc (rw (insert_implicit_parents, old) at e))
      | inr (symlink t, old) ↦ absurd (cc (rw (insert_implicit_parents, old) at e))
    ]

-- Each entry below the top has its parents.
abbrev pub IsClosed : PendingEntries → Type 0
IsClosed entries =
    (path : Components) (entry : PendingEntry)
    → get entries path ≡ some entry
    → HaveParents entries [] path

cons-IsClosed :
    (entries : PendingEntries) (path : Components) (entry : PendingEntry)
    → get entries path ≡ none
    → HaveParents entries [] path
    → IsClosed entries
    → IsClosed ((path, entry) ∷ entries)
unfolding get
cons-IsClosed entries path entry new parents closed other old e =
    elim (Bool-cases (components_eq path other)) [
      | inr f ↦
          HaveParents-Keeps entries ((path, entry) ∷ entries) [] other
            (cons-Keeps entries path entry new) (closed other old (rw f at e))
      | inl t ↦
          subst (HaveParents ((path, entry) ∷ entries) []) (eq_of_components_eq path other t) (
            HaveParents-Keeps entries ((path, entry) ∷ entries) [] path
              (cons-Keeps entries path entry new) parents)
    ]

-- The parents of a path one deeper.
HaveParents-append :
    (entries : PendingEntries) (parent cs : Components) (c d : List ℕ)
    → HaveParents entries parent (cs ++ c ∷ [])
    → get entries (parent ++ (cs ++ c ∷ [])) ≡ some directory
    → HaveParents entries parent ((cs ++ c ∷ []) ++ d ∷ [])
HaveParents-append entries parent [] c d h dir = (dir, tt)
HaveParents-append entries parent (b ∷ []) c d h dir = (
  h.0,
  (
    subst (λ (p : Components). get entries p ≡ some directory)
        (sym (append_assoc parent (b ∷ []) (c ∷ []))) dir,
    tt,
  ),
)
HaveParents-append entries parent (a ∷ b ∷ cs) c d h dir = (
  h.0,
  HaveParents-append entries (parent ++ a ∷ []) (b ∷ cs) c d h.1 (
      subst (λ (p : Components). get entries p ≡ some directory)
        (sym (append_assoc parent (a ∷ []) (b ∷ (cs ++ c ∷ [])))) dir),
)

insert_implicit_parents-IsClosed :
    (cs parent : Components) (c : List ℕ) (entries later : PendingEntries)
    → HaveParents entries [] (parent ++ c ∷ [])
    → IsClosed entries
    → insert_implicit_parents parent (c ∷ cs) entries ≡ ok later
    → IsClosed later
unfolding insert_implicit_parents
insert_implicit_parents-IsClosed [] parent c entries later h closed e =
    let same : entries ≡ later = cc e in subst IsClosed same closed
insert_implicit_parents-IsClosed (d ∷ cs) parent c entries later h closed e =
    let path = parent ++ c ∷ [] in
    elim (Option-cases (get entries (parent ++ c ∷ []))) [
      | inl new ↦
          let added = (path, directory) ∷ entries in
          let keeps = cons-Keeps entries path directory new in
          insert_implicit_parents-IsClosed cs path d added later
            (HaveParents-append added [] parent c d
              (HaveParents-Keeps entries added [] path keeps h) (get-cons entries path directory))
            (cons-IsClosed entries path directory new h closed)
            (rw (insert_implicit_parents, new) at e)
      | inr (directory, old) ↦
          insert_implicit_parents-IsClosed cs path d entries later
            (HaveParents-append entries [] parent c d h old) closed
            (rw (insert_implicit_parents, old) at e)
      | inr (file f, old) ↦ absurd (cc (rw (insert_implicit_parents, old) at e))
      | inr (symlink t, old) ↦ absurd (cc (rw (insert_implicit_parents, old) at e))
    ]

same_kind_eq :
    (old new : PendingEntry)
    → same_kind (pending_kind old) (pending_kind new) ≡ true
    → same_kind (pending_kind old) EntryKind.directory ≡ true
    → (old ≡ directory) × (new ≡ directory)
same_kind_eq directory directory t d = (refl, refl)
same_kind_eq directory (file f) t d = absurd (cc t)
same_kind_eq directory (symlink f) t d = absurd (cc t)
same_kind_eq (file f) new t d = absurd (cc d)
same_kind_eq (symlink f) new t d = absurd (cc d)

insert_pending-IsClosed :
    (entries later : PendingEntries) (path : Components) (entry : PendingEntry)
    → HaveParents entries [] path
    → IsClosed entries
    → insert_pending path entry entries ≡ ok later
    → IsClosed later × (get later path ≡ some entry) × Keeps entries later
unfolding insert_pending
insert_pending-IsClosed entries later path entry parents closed e =
    elim (Option-cases (get entries path)) [
      | inl new ↦
          let same : (path, entry) ∷ entries ≡ later = cc (rw (insert_pending, new) at e) in
          subst (λ (s : PendingEntries). IsClosed s × (get s path ≡ some entry) × Keeps entries s)
            same
            (
              cons-IsClosed entries path entry new parents closed,
              get-cons entries path entry,
              cons-Keeps entries path entry new,
            )
      | inr (old, there) ↦ existing old there (rw (insert_pending, there) at e)
    ]
  where
    existing :
        (old : PendingEntry)
        → get entries path ≡ some old
        → (if same_kind (pending_kind old) (pending_kind entry)
            then (if same_kind (pending_kind old) EntryKind.directory
                then ok entries
                else err duplicate_entry)
            else err (kind_conflict (pending_kind old) (pending_kind entry)))
          ≡ ok later
        → IsClosed later × (get later path ≡ some entry) × Keeps entries later
    existing old there last =
        elim (Bool-cases (same_kind (pending_kind old) (pending_kind entry))) [
          | inr f ↦ absurd (cc (rw f at last))
          | inl t ↦ elim (Bool-cases (same_kind (pending_kind old) EntryKind.directory)) [
            | inr f ↦ absurd (cc (rw (t, f) at last))
            | inl d ↦
                let same : entries ≡ later = cc (rw (t, d) at last) in
                let (was, is) = same_kind_eq old entry t d in
                subst
                  (λ (s : PendingEntries). IsClosed s × (get s path ≡ some entry) × Keeps entries s)
                  same (closed, there ∙ ap some (was ∙ sym is), λ q k h. h)
          ]
        ]

-- If every entry has its proper parents as directories, and insert_entry succeeds for a path
-- that is not empty, then so it is afterwards, the path has the entry given, its proper parents
-- are directories, and every entry that was there is as it was.
pub insert_entry-IsClosed :
    (entries later : PendingEntries) (c : List ℕ) (cs : Components) (entry : PendingEntry)
    → IsClosed entries
    → insert_entry (c ∷ cs) entry entries ≡ ok later
    → IsClosed later
      × (get later (c ∷ cs) ≡ some entry)
      × HaveParents later [] (c ∷ cs)
      × Keeps entries later
unfolding insert_entry
insert_entry-IsClosed entries later c cs entry closed e =
    let (between, run, last) = >>=-eq-ok (insert_implicit_parents [] (c ∷ cs) entries) _ e in
    let (keeps, parents) = insert_implicit_parents-HaveParents (c ∷ cs) [] entries between run in
    let still = insert_implicit_parents-IsClosed cs [] c entries between tt closed run in
    let (all, there, kept) =
      insert_pending-IsClosed between later (c ∷ cs) entry parents still last in
    (
      all,
      there,
      HaveParents-Keeps between later [] (c ∷ cs) kept parents,
      λ q k h. kept q k (keeps q k h),
    )
