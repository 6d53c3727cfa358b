-- ===== src/Fsobj/Archive/Tree/Lookup.antt =====
-- What the tree of `build_tree` has at a path.
use bobr.Base.{
  ℕ, zero, suc, ◌≡◌, refl, sym, ap, ◌∙◌, subst, Option, none, some, List, [], ◌∷◌, ◌++◌,
  append_assoc, Result, ok, inl, inr, Option-cases,
}
use bobr.Fsobj.Hash.{Node, directory_node, file_node, symlink_node, Entries}
use bobr.Fsobj.Archive.{
  Error, Components, PendingEntry, file, directory, symlink, PendingEntries, get,
}
use bobr.Fsobj.Archive.Insert.{IsClosed, HaveParents}
use bobr.Fsobj.Archive.Tree.{
  child_names, build_children, build_directory, longest, build_tree, as_directory, TarEntry,
  load_entries, load_tar_reader,
}
use bobr.Fsobj.Archive.Tree.Total.{load_tar_reader_total}
use bobr.Fsobj.Archive.Tree.Children.{find, lookup, view, has-child_names, find-build_children}

-- A path through a name has a directory there.
HaveParents-get :
    (entries : PendingEntries) (ps parent : Components) (c d : List ℕ) (cs : Components)
    → HaveParents entries parent (ps ++ c ∷ d ∷ cs)
    → get entries (parent ++ (ps ++ c ∷ [])) ≡ some directory
HaveParents-get entries [] parent c d cs h = h.0
HaveParents-get entries (a ∷ []) parent c d cs h =
    subst (λ (p : Components). get entries p ≡ some directory)
      (append_assoc parent (a ∷ []) (c ∷ [])) h.1.0
HaveParents-get entries (a ∷ b ∷ ps) parent c d cs h =
    subst (λ (p : Components). get entries p ≡ some directory)
      (append_assoc parent (a ∷ []) (b ∷ (ps ++ c ∷ [])))
      (HaveParents-get entries (b ∷ ps) (parent ++ a ∷ []) c d cs h.1)

-- There is nothing below what is no directory.
get-below :
    (entries : PendingEntries) (prefix : Components) (c d : List ℕ) (cs : Components)
    (what : Option PendingEntry)
    → IsClosed entries
    → get entries (prefix ++ c ∷ []) ≡ what
    → (what ≡ some directory → ⊥)
    → get entries (prefix ++ c ∷ d ∷ cs) ≡ none
get-below entries prefix c d cs what closed e never =
    elim (Option-cases (get entries (prefix ++ c ∷ d ∷ cs))) [
      | inl gone ↦ gone
      | inr (entry, there) ↦ absurd (
          never (
            sym e
            ∙ HaveParents-get entries prefix [] c d cs (closed (prefix ++ c ∷ d ∷ cs) entry there)))
    ]

as_directory-some :
    (made : Option Entries) (node : Node)
    → as_directory made ≡ some node
    → (es : Entries) × (made ≡ some es) × (directory_node es ≡ node)
as_directory-some none node e = absurd (cc e)
as_directory-some (some es) node e = (es, refl, cc e)

build_directory-view :
    (fuel : ℕ) (entries : PendingEntries) (prefix : Components) (node : Node)
    → build_directory fuel entries prefix ≡ some node
    → view (some node) ≡ some directory
unfolding build_directory
build_directory-view zero entries prefix node e = absurd (cc e)
build_directory-view (suc fuel) entries prefix node e =
    let (es, made, same) =
      as_directory-some
        (build_children (build_directory fuel entries) entries prefix (child_names entries prefix))
        node e in
    subst (λ (n : Node). view (some n) ≡ some directory) same refl

lookup-build_directory :
    (fuel : ℕ) (entries : PendingEntries) (prefix : Components) (node : Node) (c : List ℕ)
    (cs : Components)
    → IsClosed entries
    → build_directory fuel entries prefix ≡ some node
    → view (lookup node (c ∷ cs)) ≡ get entries (prefix ++ c ∷ cs)
unfolding build_directory lookup
lookup-build_directory zero entries prefix node c cs closed e = absurd (cc e)
lookup-build_directory (suc fuel) entries prefix node c cs closed e =
    let names = child_names entries prefix in
    let (es, made, same) =
      as_directory-some (build_children (build_directory fuel entries) entries prefix names) node
        e in
    let (there, gone) =
      find-build_children (build_directory fuel entries) entries prefix c names es made in
    let known = has-child_names entries prefix c in
    subst (λ (n : Node). view (lookup n (c ∷ cs)) ≡ get entries (prefix ++ c ∷ cs)) same
      (elim (Option-cases (get entries (prefix ++ c ∷ []))) [
        | inl e ↦ missing cs es (gone (rw e at known)) e
        | inr (file f, e) ↦
            let (n, found, is) = there (rw e at known) in leaf_file cs es n f found (rw e at is) e
        | inr (symlink t, e) ↦
            let (n, found, is) = there (rw e at known) in leaf_link cs es n t found (rw e at is) e
        | inr (directory, e) ↦
            let (n, found, is) = there (rw e at known) in
            below cs es n found (rw e at is) e
              (λ d ds is. lookup-build_directory fuel entries (prefix ++ c ∷ []) n d ds closed is)
      ])
  where
    missing :
        (cs : Components) (es : Entries)
        → find es c ≡ none
        → get entries (prefix ++ c ∷ []) ≡ none
        → view (lookup (directory_node es) (c ∷ cs)) ≡ get entries (prefix ++ c ∷ cs)
    missing [] es off e = rw (lookup, off, e) refl
    missing (d ∷ ds) es off e =
        rw (lookup, off) (sym (get-below entries prefix c d ds none closed e (λ h. cc h)))

    leaf_file :
        (cs : Components) (es : Entries) (n : Node) (f : _)
        → find es c ≡ some n
        → some (file_node f) ≡ some n
        → get entries (prefix ++ c ∷ []) ≡ some (file f)
        → view (lookup (directory_node es) (c ∷ cs)) ≡ get entries (prefix ++ c ∷ cs)
    leaf_file [] es n f found is e = rw (lookup, found ∙ sym is, e) refl
    leaf_file (d ∷ ds) es n f found is e =
        rw (lookup, found ∙ sym is)
          (sym (get-below entries prefix c d ds (some (file f)) closed e (λ h. cc h)))

    leaf_link :
        (cs : Components) (es : Entries) (n : Node) (t : List ℕ)
        → find es c ≡ some n
        → some (symlink_node t) ≡ some n
        → get entries (prefix ++ c ∷ []) ≡ some (symlink t)
        → view (lookup (directory_node es) (c ∷ cs)) ≡ get entries (prefix ++ c ∷ cs)
    leaf_link [] es n t found is e = rw (lookup, found ∙ sym is, e) refl
    leaf_link (d ∷ ds) es n t found is e =
        rw (lookup, found ∙ sym is)
          (sym (get-below entries prefix c d ds (some (symlink t)) closed e (λ h. cc h)))

    below :
        (cs : Components) (es : Entries) (n : Node)
        → find es c ≡ some n
        → build_directory fuel entries (prefix ++ c ∷ []) ≡ some n
        → get entries (prefix ++ c ∷ []) ≡ some directory
        → ((d : List ℕ) (ds : Components)
            → build_directory fuel entries (prefix ++ c ∷ []) ≡ some n
            → view (lookup n (d ∷ ds)) ≡ get entries ((prefix ++ c ∷ []) ++ d ∷ ds))
        → view (lookup (directory_node es) (c ∷ cs)) ≡ get entries (prefix ++ c ∷ cs)
    below [] es n found is e more =
        rw (lookup, found) (build_directory-view fuel entries (prefix ++ c ∷ []) n is ∙ sym e)
    below (d ∷ ds) es n found is e more =
        rw (lookup, found) (more d ds is ∙ ap (get entries) (append_assoc prefix (c ∷ []) (d ∷ ds)))

-- When load_tar_reader succeeds there is a tree, and for every path that is not empty the tree
-- has a file, directory or symbolic link there exactly when the entries that the loop made have
-- it, with the same contents, and nothing otherwise.
pub load_tar_reader-lookup :
    (sha256 : List ℕ → List ℕ) (archive : List (Result Error TarEntry)) (result : Option Node)
    → load_tar_reader sha256 archive ≡ ok result
    → (entries : PendingEntries) × (root : Node) × (load_entries sha256 archive [] ≡ ok entries)
      × (result ≡ some root)
      × ((c : List ℕ) (cs : Components) → view (lookup root (c ∷ cs)) ≡ get entries (c ∷ cs))
unfolding build_tree
load_tar_reader-lookup sha256 archive result e =
    let (entries, root, loaded, closed, built, is) =
      load_tar_reader_total sha256 archive result e in
    (
      entries,
      root,
      loaded,
      is,
      λ c cs. lookup-build_directory (suc (longest entries)) entries [] root c cs closed built,
    )
