-- ===== src/Repo/Tar/Nodes/Parents.antt =====
-- The nodes before and after `insert_path`, and the parents of a node.
use bobr.Base.{
  ℕ, ◌≡◌, refl, ap, ◌∙◌, subst, true, ◌&&◌, none, some, List, [], ◌∷◌, if◌then◌else◌, bytes_eq,
  bytes_eq_refl, eq_of_bytes_eq, Result, ok, err, >>=-eq-ok, inl, inr, Bool-cases, Option-cases,
}
use bobr.Repo.Error.{RepositoryError, tar_duplicate_path}
use bobr.Repo.Tar.{split_slash, push_component}
use bobr.Repo.Tar.Nodes.{
  NodeKind, directory, file, symlink, is_directory, Nodes, get, all_but_last, insert_parents,
  insert_path,
}

-- What was there is there still.
abbrev pub Keeps : Nodes → Nodes → Type 0
Keeps nodes later =
    (path : List ℕ) (kind : NodeKind) → get nodes path ≡ some kind → get later path ≡ some kind

-- Each of the paths that the components make is a directory.
abbrev pub AreDirectories : Nodes → List ℕ → List (List ℕ) → Type 0
AreDirectories nodes parent [] = Unit
AreDirectories nodes parent (c ∷ cs) =
    (get nodes (push_component parent c) ≡ some directory)
    × AreDirectories nodes (push_component parent c) cs

get-cons :
    (nodes : Nodes) (path : List ℕ) (kind : NodeKind) → get ((path, kind) ∷ nodes) path ≡ some kind
unfolding get
get-cons nodes path kind = rw (bytes_eq_refl path)

cons-Keeps :
    (nodes : Nodes) (path : List ℕ) (kind : NodeKind)
    → get nodes path ≡ none
    → Keeps nodes ((path, kind) ∷ nodes)
unfolding get
cons-Keeps nodes path kind new other k e = elim (Bool-cases (bytes_eq path other)) [
  | inr f ↦ rw f e
  | inl t ↦
      let same = eq_of_bytes_eq path other t in absurd (let gone = rw same at new in cc (gone, e))
]

pub AreDirectories-Keeps :
    (nodes later : Nodes) (parent : List ℕ) (cs : List (List ℕ))
    → Keeps nodes later
    → AreDirectories nodes parent cs
    → AreDirectories later parent cs
AreDirectories-Keeps nodes later parent [] keeps h = tt
AreDirectories-Keeps nodes later parent (c ∷ cs) keeps h = (
  keeps (push_component parent c) directory h.0,
  AreDirectories-Keeps nodes later (push_component parent c) cs keeps h.1,
)

same_kind : (old kind : NodeKind) → (is_directory old && is_directory kind) ≡ true → old ≡ kind
same_kind directory directory t = refl
same_kind directory file t = absurd (cc t)
same_kind directory symlink t = absurd (cc t)
same_kind file kind t = absurd (cc t)
same_kind symlink kind t = absurd (cc t)

module _ {Fs : Type 0} (create_dir_all : List ℕ → Fs → Result RepositoryError Fs) where
  insert_parents-AreDirectories :
      (cs : List (List ℕ)) (parent : List ℕ) (nodes : Nodes) (fs : Fs) (result : Nodes × Fs)
      → insert_parents create_dir_all cs parent nodes fs ≡ ok result
      → Keeps nodes result.0 × AreDirectories result.0 parent cs
  unfolding insert_parents
  insert_parents-AreDirectories [] parent nodes fs result e =
      let same : (nodes, fs) ≡ result = cc e in
      (λ path kind h. subst (λ (r : Nodes × Fs). get r.0 path ≡ some kind) same h, tt)
  insert_parents-AreDirectories (c ∷ cs) parent nodes fs result e =
      elim (Option-cases (get nodes (push_component parent c))) [
        | inl new ↦
            let path = push_component parent c in
            let (fs', made, run) =
              >>=-eq-ok (create_dir_all path fs) _ (rw (insert_parents, new) at e) in
            let (keeps, below) =
              insert_parents-AreDirectories cs path ((path, directory) ∷ nodes) fs' result run in
            (
              λ q k h. keeps q k (cons-Keeps nodes path directory new q k h),
              (keeps path directory (get-cons nodes path directory), below),
            )
        | inr (directory, old) ↦
            let path = push_component parent c in
            let (keeps, below) =
              insert_parents-AreDirectories cs path nodes fs result
                (rw (insert_parents, old) at e) in
            (keeps, (keeps path directory old, below))
        | inr (file, old) ↦ absurd (cc (rw (insert_parents, old) at e))
        | inr (symlink, old) ↦ absurd (cc (rw (insert_parents, old) at e))
      ]

  -- Whatever create_dir_all does, when insert_path succeeds the path has the kind given, the
  -- path of each of its proper parents is a directory, never a file or a symbolic link, and
  -- every node that was there has the kind that it had.
  pub insert_path-AreDirectories :
      (nodes : Nodes) (fs : Fs) (path : List ℕ) (kind : NodeKind) (result : Nodes × Fs)
      → insert_path create_dir_all nodes fs path kind ≡ ok result
      → (get result.0 path ≡ some kind)
        × AreDirectories result.0 [] (all_but_last (split_slash path))
        × Keeps nodes result.0
  unfolding insert_path
  insert_path-AreDirectories nodes fs path kind result e =
      let cs = all_but_last (split_slash path) in
      let (state, run, last) = >>=-eq-ok (insert_parents create_dir_all cs [] nodes fs) _ e in
      let (keeps, parents) = insert_parents-AreDirectories cs [] nodes fs state run in
      elim (Option-cases (get state.0 path)) [
        | inl new ↦
            let same : ((path, kind) ∷ state.0, state.1) ≡ result = cc (rw new at last) in
            let later = cons-Keeps state.0 path kind new in
            subst
              (λ (r : Nodes × Fs).
                (get r.0 path ≡ some kind) × AreDirectories r.0 [] cs × Keeps nodes r.0)
              same
              (
                get-cons state.0 path kind,
                AreDirectories-Keeps state.0 ((path, kind) ∷ state.0) [] cs later parents,
                λ q k h. later q k (keeps q k h),
              )
        | inr (old, there) ↦ existing state old there (rw there at last) keeps parents
      ]
    where
      existing :
          (state : Nodes × Fs) (old : NodeKind)
          → get state.0 path ≡ some old
          → (if is_directory old && is_directory kind then ok state else err tar_duplicate_path)
            ≡ ok result
          → Keeps nodes state.0
          → AreDirectories state.0 [] (all_but_last (split_slash path))
          → (get result.0 path ≡ some kind)
            × AreDirectories result.0 [] (all_but_last (split_slash path))
            × Keeps nodes result.0
      existing state old there last keeps parents =
          elim (Bool-cases (is_directory old && is_directory kind)) [
            | inr f ↦ absurd (cc (rw f at last))
            | inl t ↦
                let same : state ≡ result = cc (rw t at last) in
                subst
                  (λ (r : Nodes × Fs).
                    (get r.0 path ≡ some kind)
                    × AreDirectories r.0 [] (all_but_last (split_slash path))
                    × Keeps nodes r.0)
                  same (there ∙ ap some (same_kind old kind t), parents, keeps)
          ]
