-- ===== src/Api/Talos.antt =====
-- TalosUpgrade (api/v1alpha1/talosupgrade_types.go) and the shared specs (shared_types.go). Times
-- are nanoseconds since Go's zero time, durations are nanoseconds; a nil pointer is `none`.
use tuppr.Prelude.{ℕ, String, Bool, true, false, Option, none, some, List}
use tuppr.Api.Phase.{JobPhase}
use tuppr.Api.Cluster.{StringMap}

abbrev pub Time : Type 0
Time = ℕ

abbrev pub Duration : Type 0
Duration = ℕ

-- A label selector, opaque to the program: the API server evaluates it.
abbrev pub Selector : Type 0
Selector = String

pub record HealthCheckSpec : Type 0 where
  pub api_version : String
  pub kind : String
  pub name : String
  pub namespace : String
  pub label_selector : Option Selector
  pub expr : String
  pub timeout : Option Duration
  pub description : String
  pub skip_after_pre_hooks : Bool

pub record SilenceMatcher : Type 0 where
  pub name : String
  pub value : String
  pub match_type : String

pub record SilenceSpec : Type 0 where
  pub matchers : List SilenceMatcher
  pub max_duration : Option Duration

pub record WindowSpec : Type 0 where
  pub start : String
  pub duration : Duration
  pub timezone : String

pub record TalosSpec : Type 0 where
  pub version : String
  pub pre_pull : Option Bool

pub record TalosctlSpec : Type 0 where
  pub repository : String
  pub tag : String
  pub pull_policy : String

pub record PolicySpec : Type 0 where
  pub debug : Bool
  pub force : Bool
  pub no_drain : Bool
  pub drain_timeout : Option Duration
  pub wait_for_volume_detach : Bool
  pub placement : String
  pub reboot_mode : String
  pub stage : Bool
  pub priority_class_name : String
  pub timeout : Option Duration

-- The fields of a hook that the sequencing reads; the rest is copied into its pod.
pub record HookSpec : Type 0 where
  pub name : String
  pub image : String
  pub active_deadline_seconds : Option ℕ
  pub backoff_limit : Option ℕ

pub record HooksSpec : Type 0 where
  pub pre : List HookSpec
  pub post : List HookSpec

pub record DrainSpec : Type 0 where
  pub enabled : Bool
  pub disable_eviction : Option Bool

pub record TalosUpgradeSpec : Type 0 where
  pub health_checks : List HealthCheckSpec
  pub talos : TalosSpec
  pub talosctl : TalosctlSpec
  pub policy : PolicySpec
  pub maintenance : Option (List WindowSpec)
  pub node_selector : Option Selector
  pub drain : Option DrainSpec
  pub parallelism : Option ℕ
  pub hooks : Option HooksSpec
  pub silences : List SilenceSpec

-- metav1.Condition; LastTransitionTime is left to the API library.
pub record Condition : Type 0 where
  pub kind : String
  pub status : Bool
  pub reason : String
  pub message : String
  pub observed_generation : ℕ

pub record NodeUpgradeStatus : Type 0 where
  pub node_name : String
  pub last_error : String

pub record NodeRebootStatus : Type 0 where
  pub node_name : String
  pub deadline : Time

pub record PrePulledNode : Type 0 where
  pub node_name : String
  pub node_uid : String
  pub image : String

pub record PrePullFailure : Type 0 where
  pub attempts : ℕ
  pub last_error : String

pub record HistoryEntry : Type 0 where
  pub to_version : String
  pub started_at : Time
  pub completed_at : Time
  pub phase : JobPhase
  pub completed_nodes : List String
  pub failed_nodes : List String

pub record TalosUpgradeStatus : Type 0 where
  pub conditions : List Condition
  pub phase : JobPhase
  pub current_node : String
  pub current_nodes : List String
  pub completed_nodes : List String
  pub failed_nodes : List NodeUpgradeStatus
  pub rebooting_nodes : List NodeRebootStatus
  pub message : String
  pub observed_generation : ℕ
  pub next_maintenance_window : Option Time
  pub started_at : Option Time
  pub completed_at : Option Time
  pub history : List HistoryEntry
  pub completion_cycles : ℕ
  pub health_checks_failing_since : Option Time
  pub pre_hook_index : ℕ
  pub post_hook_index : ℕ
  pub pre_hook_failed : Bool
  pub pre_pulled_nodes : List PrePulledNode
  pub pre_pull_failure : Option PrePullFailure
  pub alert_silence_ids : List String
  pub alert_silences_since : Option Time

pub record TalosUpgrade : Type 0 where
  pub name : String
  pub uid : String
  pub annotations : StringMap
  pub finalizers : List String
  pub deleting : Bool  -- DeletionTimestamp != nil
  pub generation : ℕ
  pub spec : TalosUpgradeSpec
  pub status : TalosUpgradeStatus

-- TalosUpgradeSpec.DrainEnabled
abbrev pub drain_enabled : TalosUpgradeSpec → Bool
drain_enabled s = elim s.drain [ none ↦ false | some d ↦ d.enabled ]

-- TalosUpgradeSpec.PrePullEnabled
abbrev pub pre_pull_enabled : TalosUpgradeSpec → Bool
pre_pull_enabled s = elim s.talos.pre_pull [ none ↦ true | some b ↦ b ]
