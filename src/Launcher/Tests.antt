-- ===== src/Launcher/Tests.antt =====
-- Tests of the launcher's protocol. An event is its payload.
use bobr.Base.{
  ℕ, ◌≡◌, ◌≢◌, refl, sym, true, false, Option, none, some, List, [], ◌∷◌, ◌++◌, bytes_eq, All, ok,
  err,
}
use bobr.Base.Text.{codes}
use bobr.Base.Bytes.{to_be_bytes}
use bobr.Repo.Tar.{split_slash}
use bobr.Launcher.Events.{
  out_of_fuel, Read, bytes_read, interrupted, write_sandbox_event, drain_sandbox_events,
}
use bobr.Launcher.Events.Frames.{write_events}
use bobr.Launcher.Events.Stream.{keep, drain_sandbox_events-write_events}
use bobr.Launcher.Events.Total.{drain_sandbox_events_total}
use bobr.Launcher.Targets.{
  dot_component, root_target, components_of, has_dots, push_components, relative_launcher_target,
  SandboxLauncherMountKind, SandboxLauncherMount, SandboxLauncherConfig, has_target, check_mounts,
  validate_launcher_config,
}
use bobr.Launcher.Targets.Relative.{
  IsRelative, AreTargets, AreDistinct, relative_launcher_target-IsRelative,
  validate_launcher_config-AreTargets,
}

abbrev to_vec : List ℕ → Option (List ℕ)
to_vec event = some event

abbrev from_slice : List ℕ → Option (List ℕ)
from_slice payload = some payload

abbrev events : List (List ℕ)
events = codes "{}" ∷ codes "[1]" ∷ []

abbrev stream : List ℕ
stream = 0 ∷ 0 ∷ 0 ∷ 2 ∷ (codes "{}" ++ 0 ∷ 0 ∷ 0 ∷ 3 ∷ codes "[1]")

-- The first header is cut, and one read is interrupted.
abbrev reads : List Read
reads =
    bytes_read (0 ∷ 0 ∷ 0 ∷ [])
    ∷ interrupted
    ∷ bytes_read (2 ∷ (codes "{}" ++ 0 ∷ 0 ∷ 0 ∷ 3 ∷ codes "["))
    ∷ bytes_read (codes "1]")
    ∷ []

written : write_events to_vec from_slice events [] ≡ ok stream
unfolding write_events write_sandbox_event to_be_bytes
written = refl

drain_sandbox_events-write_events_example :
    drain_sandbox_events to_vec from_slice
      (keep to_vec from_slice (λ event payload e. sym e))
      (reads ++ bytes_read [] ∷ [])
      []
      []
    ≡ ok (true, [], events)
drain_sandbox_events-write_events_example =
    drain_sandbox_events-write_events to_vec from_slice (λ event payload e. sym e) events stream
      reads written tt refl

drain_sandbox_events_total_example :
    drain_sandbox_events to_vec from_slice
      (λ (event : List ℕ) (last : List ℕ). some event)
      reads
      []
      []
    ≢ err out_of_fuel
drain_sandbox_events_total_example =
    drain_sandbox_events_total to_vec from_slice (λ event last. some event) reads [] []

abbrev out : List ℕ
out = codes "/__bobr//out"

abbrev mount : SandboxLauncherMount
mount = record {
  kind = SandboxLauncherMountKind.bind;
  source = none;
  target = out;
  readonly = false;
  options = [];
}

abbrev config : SandboxLauncherConfig
config = record {
  protocol_version = 7;
  root = codes "/srv/root";
  mounts = mount ∷ [];
  runner_config = codes "/__bobr/runtime/runner-config.json";
  failure_report = codes "/tmp/report";
  root_overlay = none;
}

relative_out : relative_launcher_target out ≡ ok (codes "__bobr/out")
unfolding relative_launcher_target push_components components_of has_dots split_slash bytes_eq
relative_out = refl

up : relative_launcher_target (codes "/tmp/../out") ≡ err dot_component
unfolding relative_launcher_target push_components components_of has_dots split_slash bytes_eq
up = refl

root : relative_launcher_target (codes "/") ≡ err root_target
unfolding relative_launcher_target push_components components_of has_dots split_slash bytes_eq
root = refl

valid : validate_launcher_config config ≡ ok tt
unfolding validate_launcher_config check_mounts has_target relative_launcher_target push_components
    components_of has_dots split_slash bytes_eq
valid = refl

relative_launcher_target-IsRelative_example : IsRelative (codes "__bobr/out")
relative_launcher_target-IsRelative_example =
    relative_launcher_target-IsRelative out (codes "__bobr/out") relative_out

validate_launcher_config-AreTargets_example :
    (targets : List (List ℕ)) × (runner : List ℕ) × AreTargets config.mounts targets
    × All IsRelative targets
    × AreDistinct targets
    × (relative_launcher_target config.runner_config ≡ ok runner)
    × IsRelative runner
validate_launcher_config-AreTargets_example = validate_launcher_config-AreTargets config valid
