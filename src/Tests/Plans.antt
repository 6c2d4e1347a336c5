-- ===== src/Tests/Plans.antt =====
-- Plans, conditions, history, addresses and job names at concrete inputs.
use tuppr.Prelude.{
  ℕ, ◌+◌, ◌*◌, ◌≤◌, String, true, false, Option, some, none, List, [], ◌∷◌, ◌≡◌, ◌↔◌, All, max,
  length, take, str_eq, if◌then◌else◌, arith, eq_iff,
}
use tuppr.Api.Phase.{JobPhase, is_in_flight}
use tuppr.Api.Cluster.{Node, AddressType}
use tuppr.Api.Talos.{Condition, PrePulledNode}
use tuppr.Audit.{ConditionLibrary, apply_conditions, prepend_history, progressing_type, ready_type}
use tuppr.Audit.History.{prepend_history-take}
use tuppr.Audit.Ready.{IsConditionLibrary, IsReadyPhase, apply_conditions_lem}
use tuppr.Coordination.{Plan, Verdict, UpgradeType, is_another_upgrade_active}
use tuppr.Coordination.Blocking.{
  IsIdle, IsIdleOrNamed, IsNotQueued, talos-free_iff, kubernetes-free_iff,
}
use tuppr.Maintenance.{second, minute}
use tuppr.NodeUtil.{get_node_ip}
use tuppr.NodeUtil.NodeIp.{get_node_ip_lem, preferred, first_internal, last_external}
use tuppr.NodeUtil.Names.{Bytes, generate_safe_job_name, length-generate_safe_job_name, max_length}
use tuppr.Talos.Health.{retry_after}
use tuppr.Talos.Health.Gate.{retry_after_bounds}
use tuppr.Talos.PrePull.{pre_pull_failure_backoff, upsert_pre_pulled_node}
use tuppr.Talos.PrePull.Backoff.{pre_pull_failure_backoff_bounds}
use tuppr.Talos.PrePull.Records.{record_for, upsert_pre_pulled_node-record_for}

abbrev workers : Plan
workers = record { name = "workers"; phase = JobPhase.upgrading }

abbrev masters : Plan
masters = record { name = "masters"; phase = JobPhase.pending }

abbrev kubernetes : Plan
kubernetes = record { name = "kubernetes"; phase = JobPhase.completed }

talos-free_iff_example :
    (is_another_upgrade_active
        (some (kubernetes ∷ []))
        (some (workers ∷ masters ∷ []))
        "masters"
        UpgradeType.talos
      ≡ Verdict.free)
    ↔ (All IsIdle (kubernetes ∷ []) × All (IsIdleOrNamed "masters") (workers ∷ masters ∷ []))
talos-free_iff_example = talos-free_iff (kubernetes ∷ []) (workers ∷ masters ∷ []) "masters"

kubernetes-free_iff_example :
    (is_another_upgrade_active
        (some (kubernetes ∷ []))
        (some (workers ∷ masters ∷ []))
        "kubernetes"
        UpgradeType.kubernetes
      ≡ Verdict.free)
    ↔ All IsNotQueued (workers ∷ masters ∷ [])
kubernetes-free_iff_example =
    kubernetes-free_iff (kubernetes ∷ []) (workers ∷ masters ∷ []) "kubernetes"

-- A condition library on lists: a set condition goes to the front.
abbrev find_condition : List Condition → String → Option Condition
find_condition [] k = none
find_condition (c ∷ cs) k =
    let rest = find_condition cs k in if str_eq c.kind k then some c else rest

abbrev pub library : ConditionLibrary
library = record { find = find_condition; set = λ l c. c ∷ l }

pub library-IsConditionLibrary : IsConditionLibrary library
library-IsConditionLibrary = record {
  find-set_self = λ l c. ground (arith, eq_iff c.kind c.kind);
  find-set_ne = λ l c k h. ground (arith, h, eq_iff c.kind k);
}

apply_conditions_lem_example :
    let after = apply_conditions library [] JobPhase.draining "" "Draining 2 nodes" 4 in
    (p : Condition) × (r : Condition) × (library.find after progressing_type ≡ some p)
    × (library.find after ready_type ≡ some r)
    × ((p.status ≡ true) ↔ (is_in_flight JobPhase.draining ≡ true))
    × ((r.status ≡ true) ↔ IsReadyPhase JobPhase.draining "")
    × (p.message ≡ "Draining 2 nodes")
    × (r.message ≡ "Draining 2 nodes")
    × (p.observed_generation ≡ 4)
    × (r.observed_generation ≡ 4)
apply_conditions_lem_example =
    apply_conditions_lem library library-IsConditionLibrary [] JobPhase.draining ""
      "Draining 2 nodes" 4

prepend_history-take_example :
    prepend_history {A = ℕ} (3 ∷ 2 ∷ 1 ∷ []) 4 3 ≡ take 3 (4 ∷ 3 ∷ 2 ∷ 1 ∷ [])
prepend_history-take_example = prepend_history-take (3 ∷ 2 ∷ 1 ∷ []) 4 2

abbrev node : Node
node = record {
  name = "worker-1";
  uid = "u1";
  labels = [];
  annotations = [];
  unschedulable = false;
  taints = [];
  addresses =
      record { kind = AddressType.external_ip; address = "203.0.113.7" }
      ∷ record { kind = AddressType.internal_ip; address = "10.0.0.7" }
      ∷ [];
  conditions = [];
  os_image = "Talos (v1.12.0)";
  kubelet_version = "v1.34.0";
}

get_node_ip_lem_example :
    get_node_ip node ≡ preferred (first_internal node.addresses) (last_external "" node.addresses)
get_node_ip_lem_example = get_node_ip_lem node

abbrev prefix : Bytes
prefix = 116 ∷ 97 ∷ 108 ∷ []

abbrev identifier : Bytes
identifier = 119 ∷ 49 ∷ []

abbrev job_id : Bytes
job_id = 97 ∷ 98 ∷ 99 ∷ []

length-generate_safe_job_name_example :
    length (generate_safe_job_name prefix identifier job_id)
    ≤ max max_length (length prefix + 1 + length job_id)
length-generate_safe_job_name_example = length-generate_safe_job_name prefix identifier job_id

retry_after_bounds_example :
    (30 * second ≤ retry_after 0)
    × (retry_after 0 ≤ 300 * second)
    × (retry_after 0 ≤ retry_after (240 * second))
retry_after_bounds_example = retry_after_bounds 0 (240 * second) (omega arith)

pre_pull_failure_backoff_bounds_example :
    (1 * minute ≤ pre_pull_failure_backoff 3)
    × (pre_pull_failure_backoff 3 ≤ 5 * minute)
    × (pre_pull_failure_backoff 3 ≤ pre_pull_failure_backoff 4)
pre_pull_failure_backoff_bounds_example = pre_pull_failure_backoff_bounds 3

abbrev old_pull : PrePulledNode
old_pull = record { node_name = "worker-1"; node_uid = "u1"; image = "installer:v1.12.0" }

abbrev new_pull : PrePulledNode
new_pull = record { node_name = "worker-1"; node_uid = "u1"; image = "installer:v1.13.0" }

upsert_pre_pulled_node-record_for_example :
    record_for "worker-1" (upsert_pre_pulled_node (old_pull ∷ []) new_pull) ≡ (
      if str_eq new_pull.node_name "worker-1"
      then some new_pull
      else record_for "worker-1" (old_pull ∷ []))
upsert_pre_pulled_node-record_for_example =
    upsert_pre_pulled_node-record_for "worker-1" new_pull (old_pull ∷ [])
