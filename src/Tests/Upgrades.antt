-- ===== src/Tests/Upgrades.antt =====
-- The KubernetesUpgrade theorems at a plan that upgrades one control-plane node.
use tuppr.Prelude.{
  ℕ, ◌≤◌, ◌≡◌, ◌≢◌, refl, arith, String, true, false, none, some, List, [], ◌∷◌, All, length,
}
use tuppr.Api.Phase.{JobPhase}
use tuppr.Api.Cluster.{Node}
use tuppr.Api.Kubernetes.{KubernetesUpgradeSpec, KubernetesUpgradeStatus}
use tuppr.Audit.{max_completion_cycles}
use tuppr.Maintenance.{Checked, check_window}
use tuppr.Talos.World.{Outcome, Reply, ok}
use tuppr.NodeUtil.{get_node_ip}
use tuppr.Kubernetes.Nodes.{controller_loop}
use tuppr.Kubernetes.Nodes.Choice.{controllers, choose, controller_loop-choose}
use tuppr.Kubernetes.Pass.{IsReached, IsGuarded, ComesBack}
use tuppr.Kubernetes.Pass.Safety.{
  IsFresh, MayRun, created_jobs, completes, created_jobs-process_run, completes-process_upgrade,
  process_upgrade-le_max_completion_cycles, process_upgrade-ComesBack,
}
use tuppr.Kubernetes.Process.{process_run, process_upgrade}
use tuppr.Kubernetes.World.{
  Env, World, ask, pure, gets, update_status, modify_upgrade, write, stop_with, ◌>>=◌,
}
use tuppr.Tests.Fixtures.{node_of}

abbrev env : Env
env = record {
  controller_namespace = "tuppr-system";
  default_endpoint = "";
  conditions = record { find = λ l k. none; set = λ l c. c ∷ l };
  calendar = record { schedule = λ w. none; rounds = 0 };
  format_time = λ t. "time";
  decimal = λ n. "number";
  now = λ n. 100;
  safe_job_name = λ n plan node. "job";
  list_nodes = λ n. ok (node_of false "worker-1" ∷ node_of true "cp-1" ∷ []);
  list_control_plane = λ n. ok (node_of true "cp-1" ∷ []);
  list_jobs = λ n. ok [];
  list_talos_plans = λ n. some [];
  set_controller_reference = λ n. none;
  write_fails = λ n. none;
  server_version = λ n. ok "v1.34.0";
  get_node_version = λ n ip. ok "v1.13.0";
  check_health = λ n checks. none;
}

abbrev spec_to : String → KubernetesUpgradeSpec
spec_to version = record {
  kubernetes = record { version = version; image_repository = ""; endpoint = "" };
  talosctl = record { repository = ""; tag = ""; pull_policy = "" };
  health_checks = [];
  maintenance = none;
}

abbrev fresh_status : JobPhase → KubernetesUpgradeStatus
fresh_status phase = record {
  conditions = [];
  phase = phase;
  controller_node = "";
  current_version = "";
  target_version = "";
  message = "";
  observed_generation = 1;
  job_name = "";
  retries = 0;
  last_error = "";
  next_maintenance_window = none;
  started_at = none;
  completed_at = none;
  history = [];
  completion_cycles = 2;
  health_checks_failing_since = none;
}

abbrev pub world_to : String → World
world_to version = record {
  calls = 0;
  upgrade = record {
    name = "kubernetes";
    annotations = [];
    finalizers = [];
    deleting = false;
    generation = 1;
    spec = spec_to version;
    status = fresh_status JobPhase.pending;
  };
  stored = fresh_status JobPhase.pending;
  trace = [];
}

lagging_IsFresh : IsFresh (world_to "v1.35.0")
lagging_IsFresh = record {
  unwritten = refl;
  proper = cc;
  cycles = omega arith;
  stored_cycles = omega arith;
}

reached_IsFresh : IsFresh (world_to "v1.34.0")
reached_IsFresh = record {
  unwritten = refl;
  proper = cc;
  cycles = omega arith;
  stored_cycles = omega arith;
}

-- A cluster at the target completes; a lagging one starts one job on its control-plane node.
reached_completes : completes (process_upgrade env (world_to "v1.34.0")).1.trace ≡ true
unfolding process_upgrade ◌>>=◌ gets pure ask update_status modify_upgrade stop_with
reached_completes = refl

lagging_starts : length (created_jobs (process_run env (world_to "v1.35.0")).1.trace) ≡ 1
unfolding process_run ◌>>=◌ gets pure ask update_status modify_upgrade write stop_with
lagging_starts = refl

always_open : (n : ℕ) → check_window env.calendar none (env.now n) ≢ Checked.no_answer
unfolding check_window
always_open n = cc

created_jobs-process_run_example :
    All
      (IsGuarded env "kubernetes" (spec_to "v1.35.0") (MayRun env (world_to "v1.35.0")))
      (created_jobs (process_run env (world_to "v1.35.0")).1.trace)
created_jobs-process_run_example = created_jobs-process_run env (world_to "v1.35.0") lagging_IsFresh

completes-process_upgrade_example : IsReached env (spec_to "v1.34.0")
completes-process_upgrade_example =
    completes-process_upgrade env (world_to "v1.34.0") reached_IsFresh reached_completes

process_upgrade-le_max_completion_cycles_example :
    ((process_upgrade env (world_to "v1.35.0")).1.upgrade.status.completion_cycles
      ≤ max_completion_cycles)
    × ((process_upgrade env (world_to "v1.35.0")).1.stored.completion_cycles
        ≤ max_completion_cycles)
process_upgrade-le_max_completion_cycles_example =
    process_upgrade-le_max_completion_cycles env (world_to "v1.35.0") lagging_IsFresh

process_upgrade-ComesBack_example :
    (r : Reply) × ((process_upgrade env (world_to "v1.35.0")).0 ≡ Outcome.stop r)
    × ComesBack env (spec_to "v1.35.0") r
process_upgrade-ComesBack_example =
    process_upgrade-ComesBack env (world_to "v1.35.0") lagging_IsFresh always_open

abbrev nodes : List Node
nodes = node_of false "worker-1" ∷ node_of true "cp-1" ∷ node_of true "cp-2" ∷ []

controller_loop-choose_example :
    controller_loop "v1.35.0" nodes "" "" ≡ choose "v1.35.0" (controllers nodes)
controller_loop-choose_example = controller_loop-choose "v1.35.0" nodes (refl, (refl, (refl, tt)))

chooses_first : controller_loop "v1.35.0" nodes "" "" ≡ some ("cp-1", "10.0.0.1")
unfolding controller_loop get_node_ip
chooses_first = refl
