-- ===== src/Repo/Tar/Nodes.antt =====
-- bobr-repo/src/tar_profile.rs, `ExtractState::insert_path`: the nodes of an archive so far, and the
-- directories made for them. The file system is a parameter.
pub mod Parents
use bobr.Base.{
  ℕ, Bool, true, false, ◌&&◌, Option, none, some, List, [], ◌∷◌, if◌then◌else◌, bytes_eq, Result,
  ok, err, ◌>>=◌,
}
use bobr.Repo.Error.{RepositoryError, tar_non_directory_parent, tar_duplicate_path}
use bobr.Repo.Tar.{split_slash, push_component}

pub data NodeKind : Type 0 where
  directory file symlink : NodeKind

abbrev pub is_directory : NodeKind → Bool
is_directory directory = true
is_directory file = false
is_directory symlink = false

-- `BTreeMap<Vec<u8>, NodeKind>`; the code inserts only where nothing is.
abbrev pub Nodes : Type 0
Nodes = List (List ℕ × NodeKind)

unfoldable pub get : Nodes → List ℕ → Option NodeKind
get [] path = none
get ((key, kind) ∷ nodes) path =
    let rest = get nodes path in if bytes_eq key path then some kind else rest

-- `&components[..components.len() - 1]`.
abbrev pub all_but_last : List (List ℕ) → List (List ℕ)
all_but_last [] = []
all_but_last (c ∷ []) = []
all_but_last (c ∷ d ∷ cs) = c ∷ all_but_last (d ∷ cs)

-- `fs::create_dir_all` below the destination, on a state of the file system.
module _ {Fs : Type 0} (create_dir_all : List ℕ → Fs → Result RepositoryError Fs) where
  -- The loop over the components before the last.
  unfoldable pub insert_parents :
      List (List ℕ) → List ℕ → Nodes → Fs → Result RepositoryError (Nodes × Fs)
  insert_parents [] parent nodes fs = ok (nodes, fs)
  insert_parents (component ∷ components) parent nodes fs =
      let path = push_component parent component in
      elim (get nodes path) [
        | some directory ↦ insert_parents components path nodes fs
        | some file ↦ err tar_non_directory_parent
        | some symlink ↦ err tar_non_directory_parent
        | none ↦ create_dir_all path fs >>= λ fs'.
            insert_parents components path ((path, directory) ∷ nodes) fs'
      ]

  unfoldable pub insert_path : Nodes → Fs → List ℕ → NodeKind → Result RepositoryError (Nodes × Fs)
  insert_path nodes fs path kind =
      insert_parents (all_but_last (split_slash path)) [] nodes fs >>= λ state.
      elim (get state.0 path) [
        | some old ↦
            if is_directory old && is_directory kind then ok state else err tar_duplicate_path
        | none ↦ ok ((path, kind) ∷ state.0, state.1)
      ]
