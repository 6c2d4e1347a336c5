-- ===== src/Tests/Runs.antt =====
-- The controller on the fixtures.
use tuppr.Prelude.{
  String, Bool, true, false, none, some, List, [], ◌∷◌, ◌≡◌, refl, inl, All, arith, contains,
  if◌then◌else◌,
}
use tuppr.Api.Phase.{JobPhase}
use tuppr.Api.Cluster.{Node, is_succeeded, is_terminal_job}
use tuppr.Api.Talos.{TalosUpgradeStatus}
use tuppr.NodeUtil.{}
use tuppr.Talos.Batch.{NodeImage, get_parallelism, next_batch}
use tuppr.Talos.Batch.Choice.{
  ReadsRoles, IsSafeBatch, choose, next_batch-choose, next_batch-IsSafeBatch,
}
use tuppr.Talos.Health.{check_cluster_health, cluster_health_nodes}
use tuppr.Talos.Health.Gate.{IsClusterHealthy, check_cluster_health-All}
use tuppr.Talos.Hooks.{HookPhase, handle_hook_job_status}
use tuppr.Talos.Hooks.Sequence.{
  after_hook, IsStored, stored_after_hook, handle_hook_job_status-after_hook,
}
use tuppr.Talos.Nodes.{is_control_plane}
use tuppr.Talos.Outcome.{complete_node_upgrade, process_single_job_failure}
use tuppr.Talos.Outcome.Durable.{IsDurable}
use tuppr.Talos.Outcome.Durable.Upgrades.{
  complete_node_upgrade-IsDurable, process_single_job_failure-IsDurable,
}
use tuppr.Talos.Phase.{apply_phase_audit_fields}
use tuppr.Talos.Phase.Record.{apply_phase_audit_fields_lost}
use tuppr.Talos.Phase.Patches.{OnlyPatches, OnlyPatches-IsFrame}
use tuppr.Talos.Process.{process_upgrade}
use tuppr.Talos.Process.Suspended.{process_upgrade-OnlyPatches, process_upgrade-OnlySilences}
use tuppr.Talos.Start.{drain_all}
use tuppr.Talos.Start.Drained.{IsDrained, drain_all-All}
use tuppr.Talos.Silence.{sync_alert_silences}
use tuppr.Talos.Silence.BestEffort.{sync_alert_silences-Silences}
use tuppr.Talos.Silence.Rules.{IsSilenceEffect, IsEndEffect, GoesOn, Silences}
use tuppr.Talos.World.Effects.{Only}
use tuppr.Talos.World.Keeps.{Keeps, Keeps-pure}
use tuppr.Talos.Reboot.{track_loop, tracked_deadline}
use tuppr.Talos.Reboot.Deadlines.{or_else, track_loop-tracked_deadline}
use tuppr.Talos.Status.{Update, apply_updates}
use tuppr.Talos.Verify.{verify_node_upgrade}
use tuppr.Talos.Verify.Verdict.{IsVerified, verify_node_upgrade-IsVerified}
use tuppr.Talos.World.{
  Env, M, ⊤, World, Outcome, ok, ask, gets, pure, write, attempt, record_write, ◌>>=◌,
}
use tuppr.Tests.Fixtures.{env, roles, node_of, spec, status, plan, world, hook_job}

node_role : (b : Bool) (name : String) → is_control_plane (node_of b name) ≡ b
node_role true name = refl
node_role false name = refl

env-ReadsRoles : ReadsRoles env roles
env-ReadsRoles = record {
  read = λ n name. (node_of (roles name) name, refl, node_role (roles name) name);
}

abbrev pending : List String
pending = "worker-1" ∷ "cp-1" ∷ "worker-2" ∷ []

next_batch-choose_example :
    (next_batch env pending 2 world).0 ≡ Outcome.go (ok (choose roles pending 2))
next_batch-choose_example = next_batch-choose env roles env-ReadsRoles pending 2 world (omega arith)

next_batch-IsSafeBatch_example :
    (batch : List String) × ((next_batch env pending (get_parallelism spec) world).0
      ≡ Outcome.go (ok batch))
    × IsSafeBatch roles (get_parallelism spec) batch
next_batch-IsSafeBatch_example = next_batch-IsSafeBatch env roles env-ReadsRoles pending spec world

world-IsDurable : IsDurable "worker-1" world
world-IsDurable = record {
  accounted = refl;
  completed = λ e. e;
  failed = λ e. e;
  waiting = inl refl;
}

complete_node_upgrade-IsDurable_example :
    IsDurable "worker-1" (complete_node_upgrade env "worker-1" world).1
complete_node_upgrade-IsDurable_example =
    complete_node_upgrade-IsDurable env "worker-1" "worker-1" world world-IsDurable

process_single_job_failure-IsDurable_example :
    IsDurable "worker-1" (process_single_job_failure env "worker-1" "timed out" world).1
process_single_job_failure-IsDurable_example =
    process_single_job_failure-IsDurable env "worker-1" "worker-1" "timed out" world world-IsDurable

verified : (verify_node_upgrade env "worker-1" world).0 ≡ Outcome.go (ok true)
unfolding verify_node_upgrade ask gets pure ◌>>=◌
verified = refl

verify_node_upgrade-IsVerified_example : IsVerified env "worker-1" world
verify_node_upgrade-IsVerified_example =
    verify_node_upgrade-IsVerified env "worker-1" world verified

healthy : (check_cluster_health env world).0 ≡ Outcome.go none
unfolding check_cluster_health ask gets pure ◌>>=◌
healthy = refl

check_cluster_health-All_example :
    (nodes : List Node) × ((cluster_health_nodes env world).0 ≡ Outcome.go (ok nodes))
    × IsClusterHealthy env plan nodes
check_cluster_health-All_example = check_cluster_health-All env world healthy

failed_hook : is_terminal_job hook_job ≡ true
unfolding is_terminal_job
failed_hook = refl

handle_hook_job_status-after_hook_example :
    ((handle_hook_job_status env hook_job HookPhase.pre 3 world).1.upgrade.status
      ≡ after_hook HookPhase.pre (is_succeeded hook_job) 3 status)
    × IsStored env world
        (stored_after_hook HookPhase.pre (is_succeeded hook_job) 3 plan world.stored)
        (handle_hook_job_status env hook_job HookPhase.pre 3 world).1.stored
handle_hook_job_status-after_hook_example =
    handle_hook_job_status-after_hook env hook_job HookPhase.pre 3 world failed_hook

track_loop-tracked_deadline_example :
    tracked_deadline "worker-2"
      (track_loop 900 ("worker-1" ∷ "worker-2" ∷ []) status.rebooting_nodes)
    ≡ or_else
        (tracked_deadline "worker-2" status.rebooting_nodes)
        (if contains ("worker-1" ∷ "worker-2" ∷ []) "worker-2" then some 900 else none)
track_loop-tracked_deadline_example =
    track_loop-tracked_deadline 900 "worker-2" ("worker-1" ∷ "worker-2" ∷ []) status.rebooting_nodes

apply_phase_audit_fields_lost_example :
    let waiting : TalosUpgradeStatus =
      record (apply_updates
        (apply_phase_audit_fields status JobPhase.pending 60 "v1.13.0")
        status) { phase = JobPhase.pending } in
    apply_phase_audit_fields waiting JobPhase.completed 70 "v1.13.0"
    ≡ Update.completed_at (some 70) ∷ []
apply_phase_audit_fields_lost_example = apply_phase_audit_fields_lost status 60 70 "v1.13.0" refl

abbrev batch : List NodeImage
batch =
    record { node_name = "worker-1"; image = "installer:v1.13.0" }
    ∷ record { node_name = "worker-2"; image = "installer:v1.13.0" }
    ∷ []

all_drained : (drain_all env batch [] world).0 ≡ Outcome.go tt
unfolding drain_all ask pure write attempt record_write ◌>>=◌
all_drained = refl

drain_all-All_example : All (IsDrained env) batch
drain_all-All_example = drain_all-All env batch [] world all_drained

abbrev suspended : World
suspended = record world {
  upgrade = record plan { annotations = ("tuppr.home-operations.com/suspend", "true") ∷ [] };
}

-- No Alertmanager is configured.
abbrev no_silences : Bool → M ⊤
no_silences b = pure tt

no_silences-OnlyPatches : Keeps OnlyPatches (no_silences true)
no_silences-OnlyPatches = Keeps-pure OnlyPatches-IsFrame tt

process_upgrade-OnlyPatches_example :
    OnlyPatches suspended (process_upgrade env no_silences suspended).1
process_upgrade-OnlyPatches_example =
    process_upgrade-OnlyPatches env no_silences "true" suspended refl no_silences-OnlyPatches

abbrev with_silencer : Env
with_silencer = record env { config = record env.config { has_silencer = true } }

process_upgrade-OnlySilences_example :
    Only IsEndEffect suspended
      (process_upgrade with_silencer (sync_alert_silences with_silencer) suspended).1
process_upgrade-OnlySilences_example =
    process_upgrade-OnlySilences with_silencer "true" suspended refl

-- A run that holds one silence and is to hold two.
abbrev silenced : World
silenced = record world {
  upgrade = record plan {
    spec = record spec {
      silences =
          record { matchers = []; max_duration = none }
          ∷ record { matchers = []; max_duration = some 60 }
          ∷ [];
    };
    status = record status {
      phase = JobPhase.upgrading;
      alert_silence_ids = "first" ∷ [];
      alert_silences_since = some 0;
    };
  };
}

sync_alert_silences-Silences_example :
    GoesOn (sync_alert_silences with_silencer false silenced).0
    × Silences IsSilenceEffect silenced (sync_alert_silences with_silencer false silenced).1
sync_alert_silences-Silences_example = sync_alert_silences-Silences with_silencer false silenced
