-- ===== src/Launcher/Targets.antt =====
-- `relative_launcher_target` and `validate_launcher_config` of bobr-sandbox-launcher/src/protocol.rs.
-- A `Path` is its bytes; `Path::components` is the standard library's on Unix.
pub mod Relative
use bobr.Base.{
  ℕ, Bool, true, false, ◌||◌, List, [], ◌∷◌, ◌==◌, if◌then◌else◌, bytes_eq, Option, Result, ok, err,
  ◌>>=◌,
}
use bobr.Repo.Tar.{split_slash, is_empty, starts_with_slash, push_component}

pub data TargetError : Type 0 where
  not_absolute dot_component root_target duplicate_target : TargetError

pub data Component : Type 0 where
  root_dir cur_dir parent_dir : Component
  normal : List ℕ → Component

abbrev pub is_dot : List ℕ → Bool
is_dot segment = bytes_eq segment (b'.' ∷ [])

abbrev pub is_dots : List ℕ → Bool
is_dots segment = bytes_eq segment (b'.' ∷ b'.' ∷ [])

-- `Path::components` behind the root: empty segments and single dots are left out.
unfoldable pub components_of : List (List ℕ) → List Component
components_of [] = []
components_of (segment ∷ segments) =
    let rest = components_of segments in
    if is_empty segment || is_dot segment
    then rest
    else if is_dots segment
    then parent_dir ∷ rest
    else normal segment ∷ rest

-- `Path::components` of an absolute path.
abbrev pub components : List ℕ → List Component
components path = root_dir ∷ components_of (split_slash path)

-- The `any` over the segments.
unfoldable pub has_dots : List (List ℕ) → Bool
has_dots [] = false
has_dots (segment ∷ segments) = (is_dot segment || is_dots segment) || has_dots segments

-- The loop over the components.
unfoldable pub push_components : List Component → List ℕ → Result TargetError (List ℕ)
push_components [] relative = ok relative
push_components (root_dir ∷ rest) relative = push_components rest relative
push_components (normal segment ∷ rest) relative =
    push_components rest (push_component relative segment)
push_components (cur_dir ∷ rest) relative = err dot_component
push_components (parent_dir ∷ rest) relative = err dot_component

unfoldable pub relative_launcher_target : List ℕ → Result TargetError (List ℕ)
relative_launcher_target target =
    if starts_with_slash target
    then (if has_dots (split_slash target)
        then err dot_component
        else (push_components (components target) [] >>= λ relative.
            if is_empty relative then err root_target else ok relative))
    else err not_absolute

pub data SandboxLauncherMountKind : Type 0 where
  bind proc tmpfs : SandboxLauncherMountKind

pub record SandboxLauncherMount : Type 0 where
  pub kind : SandboxLauncherMountKind
  pub source : Option (List ℕ)
  pub target : List ℕ
  pub readonly : Bool
  pub options : List (List ℕ)

pub record SandboxRootOverlay : Type 0 where
  pub lower : List ℕ
  pub upper : List ℕ
  pub work : List ℕ

pub record SandboxLauncherConfig : Type 0 where
  pub protocol_version : ℕ
  pub root : List ℕ
  pub mounts : List SandboxLauncherMount
  pub runner_config : List ℕ
  pub failure_report : List ℕ
  pub root_overlay : Option SandboxRootOverlay

-- Membership in the set of targets.
unfoldable pub has_target : List (List ℕ) → List ℕ → Bool
has_target [] relative = false
has_target (target ∷ targets) relative = bytes_eq target relative || has_target targets relative

-- The loop over the mounts, with the targets so far.
unfoldable pub check_mounts :
    List (List ℕ) → List SandboxLauncherMount → Result TargetError (Unit {0})
check_mounts targets [] = ok tt
check_mounts targets (mount ∷ mounts) = relative_launcher_target mount.target >>= λ relative.
    if has_target targets relative
    then err duplicate_target
    else check_mounts (relative ∷ targets) mounts

unfoldable pub validate_launcher_config : SandboxLauncherConfig → Result TargetError (Unit {0})
validate_launcher_config config = check_mounts [] config.mounts >>= λ checked.
    relative_launcher_target config.runner_config >>= λ relative. ok tt
