-- ===== src/Tests/Fixtures.antt =====
-- A plan over one control-plane node and two workers, and surroundings in which every call succeeds.
use tuppr.Prelude.{String, Bool, true, false, none, some, [], ◌∷◌, str_eq}
use tuppr.Api.Phase.{JobPhase}
use tuppr.Api.Cluster.{Node, Job, StringMap, AddressType}
use tuppr.Api.Talos.{TalosUpgrade, TalosUpgradeSpec, TalosUpgradeStatus}
use tuppr.Talos.World.{Env, World, ok}

abbrev pub labels_of : Bool → StringMap
labels_of true = ("node-role.kubernetes.io/control-plane", "") ∷ []
labels_of false = []

abbrev pub node_of : Bool → String → Node
node_of control_plane name = record {
  name = name;
  uid = name;
  labels = labels_of control_plane;
  annotations = [];
  unschedulable = false;
  taints = [];
  addresses = record { kind = AddressType.internal_ip; address = "10.0.0.1" } ∷ [];
  conditions = record { kind = "Ready"; is_true = true } ∷ [];
  os_image = "Talos (v1.13.0)";
  kubelet_version = "v1.34.0";
}

-- The control-plane node is cp-1.
abbrev pub roles : String → Bool
roles name = str_eq name "cp-1"

abbrev pub env : Env
env = record {
  config = record {
    controller_node_name = "";
    controller_pod_name = "tuppr-0";
    has_silencer = false;
    metal_platform = "metal";
    cloud_platforms = "aws" ∷ [];
  };
  conditions = record { find = λ l k. none; set = λ l c. c ∷ l };
  calendar = record { schedule = λ w. none; rounds = 0 };
  format_time = λ t. "time";
  format_duration = λ d. "duration";
  decimal = λ n. "number";
  now = λ n. 100;
  get_node = λ n name. ok (node_of (roles name) name);
  list_nodes = λ n s. ok (node_of false "worker-1" ∷ node_of false "worker-2" ∷ []);
  list_control_plane = λ n. ok (node_of true "cp-1" ∷ []);
  list_jobs = λ n app. ok [];
  list_pods = λ n. ok [];
  list_kubernetes_plans = λ n. some [];
  list_talos_plans = λ n. some [];
  get_job = λ n name. none;
  write_fails = λ n. none;
  get_node_version = λ n ip. ok "v1.13.0";
  check_node_ready = λ n ip. none;
  check_machine_ready = λ n ip. none;
  check_etcd_healthy = λ n ips. none;
  get_node_install_image = λ n ip. ok "ghcr.io/siderolabs/installer:v1.12.0";
  get_node_extensions = λ n ip. ok (record { schematic = ""; extensions = [] });
  get_node_platform = λ n ip. ok "metal";
  check_image = λ n image. none;
  check_health = λ n checks. none;
  evictable_volumes = λ n name. ok [];
  drain_node = λ n name. none;
  ensure_silence = λ n key. ok "silence";
}

abbrev pub spec : TalosUpgradeSpec
spec = record {
  health_checks = [];
  talos = record { version = "v1.13.0"; pre_pull = none };
  talosctl = record { repository = ""; tag = ""; pull_policy = "" };
  policy = record {
    debug = false;
    force = false;
    no_drain = false;
    drain_timeout = none;
    wait_for_volume_detach = false;
    placement = "soft";
    reboot_mode = "default";
    stage = false;
    priority_class_name = "";
    timeout = none;
  };
  maintenance = none;
  node_selector = none;
  drain = none;
  parallelism = some 2;
  hooks = none;
  silences = [];
}

-- worker-1 reboots after its upgrade.
abbrev pub status : TalosUpgradeStatus
status = record {
  conditions = [];
  phase = JobPhase.upgrading;
  current_node = "worker-1";
  current_nodes = "worker-1" ∷ [];
  completed_nodes = [];
  failed_nodes = [];
  rebooting_nodes = record { node_name = "worker-1"; deadline = 2000 } ∷ [];
  message = "";
  observed_generation = 4;
  next_maintenance_window = none;
  started_at = some 50;
  completed_at = none;
  history = [];
  completion_cycles = 0;
  health_checks_failing_since = none;
  pre_hook_index = 0;
  post_hook_index = 0;
  pre_hook_failed = false;
  pre_pulled_nodes = [];
  pre_pull_failure = none;
  alert_silence_ids = [];
  alert_silences_since = none;
}

abbrev pub plan : TalosUpgrade
plan = record {
  name = "workers";
  uid = "uid-1";
  annotations = [];
  finalizers = [];
  deleting = false;
  generation = 4;
  spec = spec;
  status = status;
}

abbrev pub world : World
world = record { calls = 0; upgrade = plan; stored = status; trace = [] }

abbrev pub hook_job : Job
hook_job = record {
  name = "workers-pre-hook";
  uid = "job-1";
  labels = [];
  controller = none;
  succeeded = 0;
  conditions = record { kind = "Failed"; is_true = true } ∷ [];
}
