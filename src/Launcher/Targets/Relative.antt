-- ===== src/Launcher/Targets/Relative.antt =====
-- The targets below the root of a sandbox.
use bobr.Base.{
  ℕ, ◌≡◌, ◌≢◌, refl, sym, subst, Bool, true, false, ◌||◌, List, [], ◌∷◌, All, bytes_eq,
  bytes_eq_refl, ok, >>=-eq-ok, ok_inj, inl, inr, Bool-cases,
}
use bobr.Repo.Tar.{split_slash, is_empty, starts_with_slash, push_component}
use bobr.Repo.Tar.Normalize.{NoSlash, join_from, split_slash-NoSlash}
use bobr.Fsobj.Archive.Paths.{IsPlain}
use bobr.Launcher.Targets.{
  is_dot, is_dots, components_of, components, has_dots, push_components, relative_launcher_target,
  SandboxLauncherMount, SandboxLauncherConfig, has_target, check_mounts, validate_launcher_config,
}

-- A path below the root: one or more components, none of which leaves it.
pub record IsRelative (path : List ℕ) : Type 0 where
  pub segments : List (List ℕ)
  pub plain : All IsPlain segments
  pub joined : path ≡ join_from [] segments
  pub not_empty : is_empty path ≡ false

or_false : (a b : Bool) → (a || b) ≡ false → (a ≡ false) × (b ≡ false)
or_false true b h = absurd (cc h)
or_false false b h = (refl, h)

push_components-join_from :
    (segments : List (List ℕ)) (relative result : List ℕ)
    → All NoSlash segments
    → has_dots segments ≡ false
    → push_components (components_of segments) relative ≡ ok result
    → (kept : List (List ℕ)) × All IsPlain kept × (result ≡ join_from relative kept)
unfolding push_components components_of has_dots
push_components-join_from [] relative result plain dots e = ([], tt, sym (ok_inj e))
push_components-join_from (segment ∷ segments) relative result plain dots e =
    let (one, rest) = or_false (is_dot segment || is_dots segment) (has_dots segments) dots in
    let (dot, parent) = or_false (is_dot segment) (is_dots segment) one in
    elim (Bool-cases (is_empty segment)) [
      | inl t ↦ push_components-join_from segments relative result plain.1 rest (rw t at e)
      | inr f ↦
          let (kept, all, is) =
            push_components-join_from segments (push_component relative segment) result plain.1 rest
              (rw (f, dot, parent) at e) in
          (
            segment ∷ kept,
            (record { no_slash = plain.0; not_empty = f; not_dot = dot; not_parent = parent }, all),
            is,
          )
    ]

pub relative_launcher_target-IsRelative :
    (target relative : List ℕ) → relative_launcher_target target ≡ ok relative → IsRelative relative
unfolding relative_launcher_target push_components
relative_launcher_target-IsRelative target relative e =
    elim (Bool-cases (starts_with_slash target)) [
      | inr f ↦ absurd (cc (rw f at e))
      | inl absolute ↦ elim (Bool-cases (has_dots (split_slash target))) [
        | inl t ↦ absurd (cc (rw (absolute, t) at e))
        | inr dots ↦
            let (pushed, ran, last) =
              >>=-eq-ok (push_components (components target) []) _ (rw (absolute, dots) at e) in
            let (kept, all, is) =
              push_components-join_from (split_slash target) [] pushed (split_slash-NoSlash target)
                dots ran in
            elim (Bool-cases (is_empty pushed)) [
              | inl t ↦ absurd (cc (rw t at last))
              | inr f ↦
                  subst IsRelative (ok_inj (rw f at last))
                    (record { segments = kept; plain = all; joined = is; not_empty = f })
            ]
      ]
    ]

-- The targets that the mounts have below the root.
abbrev pub AreTargets : List SandboxLauncherMount → List (List ℕ) → Type 0
AreTargets [] [] = Unit
AreTargets [] (relative ∷ targets) = ⊥
AreTargets (mount ∷ mounts) [] = ⊥
AreTargets (mount ∷ mounts) (relative ∷ targets) =
    (relative_launcher_target mount.target ≡ ok relative) × AreTargets mounts targets

-- No two of them are the same.
abbrev pub AreDistinct : List (List ℕ) → Type 0
AreDistinct [] = Unit
AreDistinct (relative ∷ targets) = All (λ later. relative ≢ later) targets × AreDistinct targets

has_target-All :
    (seen : List (List ℕ)) (relative : List ℕ)
    → has_target seen relative ≡ false
    → All (λ s. s ≢ relative) seen
unfolding has_target
has_target-All [] relative h = tt
has_target-All (s ∷ seen) relative h =
    let (one, rest) = or_false (bytes_eq s relative) (has_target seen relative) h in
    (
      λ same. let yes = subst (λ r. bytes_eq s r ≡ true) same (bytes_eq_refl s) in cc (one, yes),
      has_target-All seen relative rest,
    )

-- Each of the seen is none of the later ones.
abbrev AreNew : List (List ℕ) → List (List ℕ) → Type 0
AreNew seen targets = All (λ relative. All (λ s. s ≢ relative) seen) targets

AreNew-head :
    (s : List ℕ) (seen targets : List (List ℕ))
    → AreNew (s ∷ seen) targets
    → All (λ later. s ≢ later) targets × AreNew seen targets
AreNew-head s seen [] h = (tt, tt)
AreNew-head s seen (relative ∷ targets) h =
    let (ones, rest) = AreNew-head s seen targets h.1 in ((h.0.0, ones), (h.0.1, rest))

check_mounts-AreTargets :
    (seen : List (List ℕ)) (mounts : List SandboxLauncherMount)
    → check_mounts seen mounts ≡ ok tt
    → (targets : List (List ℕ)) × AreTargets mounts targets
      × All IsRelative targets
      × AreDistinct targets
      × AreNew seen targets
unfolding check_mounts
check_mounts-AreTargets seen [] e = ([], tt, tt, tt, tt)
check_mounts-AreTargets seen (mount ∷ mounts) e =
    let (relative, ran, last) = >>=-eq-ok (relative_launcher_target mount.target) _ e in
    elim (Bool-cases (has_target seen relative)) [
      | inl t ↦ absurd (cc (rw t at last))
      | inr f ↦
          let (targets, are, good, distinct, new) =
            check_mounts-AreTargets (relative ∷ seen) mounts (rw f at last) in
          let (first, rest) = AreNew-head relative seen targets new in
          (
            relative ∷ targets,
            (ran, are),
            (relative_launcher_target-IsRelative mount.target relative ran, good),
            (first, distinct),
            (has_target-All seen relative f, rest),
          )
    ]

-- When validate_launcher_config accepts a configuration, the targets of the mounts and the
-- runner configuration have paths below the root, of one or more components none of which is
-- empty, a dot or two dots or has a slash inside, and no two mounts have the same.
pub validate_launcher_config-AreTargets :
    (config : SandboxLauncherConfig)
    → validate_launcher_config config ≡ ok tt
    → (targets : List (List ℕ)) × (runner : List ℕ) × AreTargets config.mounts targets
      × All IsRelative targets
      × AreDistinct targets
      × (relative_launcher_target config.runner_config ≡ ok runner)
      × IsRelative runner
unfolding validate_launcher_config
validate_launcher_config-AreTargets config e =
    let (checked, ran, e1) = >>=-eq-ok (check_mounts [] config.mounts) _ e in
    let (runner, is, last) = >>=-eq-ok (relative_launcher_target config.runner_config) _ e1 in
    let (targets, are, good, distinct, new) = check_mounts-AreTargets [] config.mounts ran in
    (
      targets,
      runner,
      are,
      good,
      distinct,
      is,
      relative_launcher_target-IsRelative config.runner_config runner is,
    )
