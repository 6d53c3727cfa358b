-- ===== src/Fsobj/Archive/Tree/Total.antt =====
-- The names below a prefix, and the tree that `build_tree` makes of any entries.
use bobr.Base.{
  ℕ, zero, suc, ◌+◌, ◌≤◌, ◌<◌, ◌≡◌, refl, sym, ap, ◌∙◌, subst, Option, some, List, [], ◌∷◌, ◌++◌,
  length, length-append, All, ltb, bytes_eq, eq_of_bytes_eq, Result, ok, >>=-eq-ok, Ordering, inl,
  inr, Bool-cases, Option-cases, arith,
}
use bobr.Base.Order.{cmp}
use bobr.Fsobj.Hash.{Node, directory_node, file_node, symlink_node, Entries, cons, nil}
use bobr.Fsobj.Archive.{
  Error, Components, PendingEntry, file, directory, symlink, PendingEntries, components_eq, get,
  insert_entry, normalize_archive_path,
}
use bobr.Fsobj.Archive.Paths.{IsArchivePath, normalize_archive_path-IsArchivePath}
use bobr.Fsobj.Archive.Insert.{
  IsClosed, insert_entry-IsClosed, components_eq_refl, eq_of_components_eq,
}
use bobr.Fsobj.Archive.Tree.{
  insert_name, child_name, child_names, child_node, build_children, build_directory, longest,
  build_tree, as_directory, TarEntry, load_entries, load_tar_reader, pending_of,
}

-- An entry is there.
abbrev pub IsKey : PendingEntries → Components → Type 0
IsKey entries path = (entry : PendingEntry) × (get entries path ≡ some entry)

insert_name-All :
    (P : List ℕ → Type 0) (name : List ℕ) (names : List (List ℕ))
    → P name
    → All P names
    → All P (insert_name name names)
unfolding insert_name
insert_name-All P name [] h all = (h, tt)
insert_name-All P name (n ∷ ns) h all = order (insert_name-All P name ns h all.1) (cmp name n) refl
  where
    order :
        All P (insert_name name ns)
        → (o : Ordering) → cmp name n ≡ o
        → All P (insert_name name (n ∷ ns))
    order rest Ordering.lt e = rw (insert_name, e) (h, all)
    order rest Ordering.eq e = rw (insert_name, e) all
    order rest Ordering.gt e = rw (insert_name, e) (all.0, rest)

child_name_eq :
    (prefix path : Components) (name : List ℕ)
    → child_name prefix path ≡ some name
    → path ≡ prefix ++ name ∷ []
unfolding child_name
child_name_eq [] [] name e = absurd (cc e)
child_name_eq [] (d ∷ []) name e =
    let same : ◌≡◌ {A = List ℕ} d name = cc e in ap (λ n. n ∷ []) same
child_name_eq [] (d ∷ b ∷ ds) name e = absurd (cc e)
child_name_eq (c ∷ cs) [] name e = absurd (cc e)
child_name_eq (c ∷ cs) (d ∷ ds) name e = elim (Bool-cases (bytes_eq c d)) [
  | inr f ↦ absurd (cc (rw f at e))
  | inl t ↦
      let tail = child_name_eq cs ds name (rw t at e) in
      let head = eq_of_bytes_eq c d t in cc (head, tail)
]

IsKey-cons :
    (entries : PendingEntries) (path key : Components) (entry : PendingEntry)
    → IsKey entries path
    → IsKey ((key, entry) ∷ entries) path
unfolding get
IsKey-cons entries path key entry h = elim (Bool-cases (components_eq key path)) [
  | inl t ↦ rw t (entry, refl)
  | inr f ↦ rw f h
]

IsKey-head :
    (entries : PendingEntries) (key : Components) (entry : PendingEntry)
    → IsKey ((key, entry) ∷ entries) key
unfolding get
IsKey-head entries key entry = rw (components_eq_refl key) (entry, refl)

All-weaken :
    (P Q : List ℕ → Type 0) (names : List (List ℕ))
    → ((n : List ℕ) → P n → Q n)
    → All P names
    → All Q names
All-weaken P Q [] step h = tt
All-weaken P Q (n ∷ ns) step h = (step n h.0, All-weaken P Q ns step h.1)

child_names-IsKey :
    (entries : PendingEntries) (prefix : Components)
    → All (λ n. IsKey entries (prefix ++ n ∷ [])) (child_names entries prefix)
unfolding child_names
child_names-IsKey [] prefix = tt
child_names-IsKey ((path, entry) ∷ entries) prefix =
    let rest =
      All-weaken (λ n. IsKey entries (prefix ++ n ∷ []))
        (λ n. IsKey ((path, entry) ∷ entries) (prefix ++ n ∷ [])) (child_names entries prefix)
        (λ n. IsKey-cons entries (prefix ++ n ∷ []) path entry)
        (child_names-IsKey entries prefix) in
    elim (Option-cases (child_name prefix path)) [
      | inl e ↦ rw (child_names, e) rest
      | inr (name, e) ↦
          rw (child_names, e)
            (insert_name-All (λ n. IsKey ((path, entry) ∷ entries) (prefix ++ n ∷ [])) name
              (child_names entries prefix)
              (subst (IsKey ((path, entry) ∷ entries)) (child_name_eq prefix path name e)
                (IsKey-head entries path entry))
              rest)
    ]

longest-IsKey :
    (entries : PendingEntries) (path : Components)
    → IsKey entries path
    → length path ≤ longest entries
unfolding get longest
longest-IsKey [] path h = absurd (let e = h.1 in cc e)
longest-IsKey ((key, entry) ∷ entries) path (found, e) =
    elim (Bool-cases (components_eq key path)) [
      | inl t ↦
          let same = ap (λ (p : Components). length p) (eq_of_components_eq key path t) in
          elim (Bool-cases (ltb (longest entries) (length key))) [
            | inl l ↦ rw l (omega (arith, same))
            | inr l ↦ rw l (ground (arith, same))
          ]
      | inr f ↦
          let below = longest-IsKey entries path (found, rw f at e) in
          elim (Bool-cases (ltb (longest entries) (length key))) [
            | inl l ↦ rw l (ground (arith, below))
            | inr l ↦ rw l below
          ]
    ]

-- The loop is done when each child has its node.
build_children_total :
    (build : Components → Option Node) (entries : PendingEntries) (prefix : Components)
    (names : List (List ℕ))
    → ((path : Components)
        → IsKey entries path
        → length path ≡ suc (length prefix)
        → (n : Node) × (build path ≡ some n))
    → All (λ n. IsKey entries (prefix ++ n ∷ [])) names
    → (es : Entries) × (build_children build entries prefix names ≡ some es)
unfolding build_children
build_children_total build entries prefix [] total keys = (nil, refl)
build_children_total build entries prefix (name ∷ names) total keys =
    let (rest, made) = build_children_total build entries prefix names total keys.1 in
    let count : length (prefix ++ name ∷ []) ≡ suc (length prefix) =
      length-append prefix (name ∷ []) ∙ omega arith in
    let (node, built) = one keys.0.0 count keys.0.1 in
    (cons name node rest, rw (build_children, built, made) refl)
  where
    one :
        (pending : PendingEntry)
        → length (prefix ++ name ∷ []) ≡ suc (length prefix)
        → get entries (prefix ++ name ∷ []) ≡ some pending
        → (n : Node) × (child_node build (prefix ++ name ∷ []) (get entries (prefix ++ name ∷ []))
            ≡ some n)
    one (file f) count e = (file_node f, rw e refl)
    one (symlink t) count e = (symlink_node t, rw e refl)
    one directory count e =
        let (n, built) = total (prefix ++ name ∷ []) (directory, e) count in (n, rw e built)

build_directory_total :
    (fuel : ℕ) (entries : PendingEntries) (prefix : Components)
    → longest entries < fuel + length prefix
    → length prefix ≤ longest entries
    → (n : Node) × (build_directory fuel entries prefix ≡ some n)
unfolding build_directory
build_directory_total zero entries prefix enough inside = absurd (omega arith)
build_directory_total (suc fuel) entries prefix enough inside =
    let (es, made) =
      build_children_total (build_directory fuel entries) entries prefix
        (child_names entries prefix)
        (λ path key count.
          build_directory_total fuel entries path (omega arith) (longest-IsKey entries path key))
        (child_names-IsKey entries prefix) in
    (directory_node es, ap as_directory made)

-- build_tree makes a tree of any entries: the recursion of build_directory ends within fuel of
-- one more than the length of the longest path, and its expect never fails.
pub build_tree_total : (entries : PendingEntries) → (n : Node) × (build_tree entries ≡ some n)
unfolding build_tree
build_tree_total entries =
    build_directory_total (suc (longest entries)) entries [] (omega arith) (omega arith)

empty-IsClosed : IsClosed []
unfolding get
empty-IsClosed path entry e = absurd (cc e)

load_entries-IsClosed :
    (sha256 : List ℕ → List ℕ) (archive : List (Result Error TarEntry))
    (entries later : PendingEntries)
    → IsClosed entries
    → load_entries sha256 archive entries ≡ ok later
    → IsClosed later
unfolding load_entries
load_entries-IsClosed sha256 [] entries later closed e =
    let same : entries ≡ later = cc e in subst IsClosed same closed
load_entries-IsClosed sha256 (next ∷ rest) entries later closed e =
    let (entry, read, e1) = >>=-eq-ok next _ e in
    let (path, normal, e2) = >>=-eq-ok (normalize_archive_path entry.path_bytes) _ e1 in
    let (pending, known, e3) = >>=-eq-ok (pending_of sha256 entry) _ e2 in
    let (between, inserted, e4) = >>=-eq-ok (insert_entry path pending entries) _ e3 in
    load_entries-IsClosed sha256 rest between later
      (inserted_lem path pending
        (normalize_archive_path-IsArchivePath entry.path_bytes path normal).0 between inserted)
      e4
  where
    inserted_lem :
        (path : Components) (pending : PendingEntry)
        → IsArchivePath path
        → (between : PendingEntries) → insert_entry path pending entries ≡ ok between
        → IsClosed between
    inserted_lem [] pending h between e = absurd (let n = h.0 in cc n)
    inserted_lem (c ∷ cs) pending h between e =
        (insert_entry-IsClosed entries between c cs pending closed e).0

pub load_tar_reader_total :
    (sha256 : List ℕ → List ℕ) (archive : List (Result Error TarEntry)) (result : Option Node)
    → load_tar_reader sha256 archive ≡ ok result
    → (entries : PendingEntries) × (root : Node) × (load_entries sha256 archive [] ≡ ok entries)
      × IsClosed entries
      × (build_tree entries ≡ some root)
      × (result ≡ some root)
unfolding load_tar_reader
load_tar_reader_total sha256 archive result e =
    let (entries, loaded, last) = >>=-eq-ok (load_entries sha256 archive []) _ e in
    let (root, built) = build_tree_total entries in
    let same : build_tree entries ≡ result = cc last in
    (
      entries,
      root,
      loaded,
      load_entries-IsClosed sha256 archive [] entries empty-IsClosed loaded,
      built,
      sym same ∙ built,
    )
