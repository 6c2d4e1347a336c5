-- ===== src/Api/Kubernetes.antt =====
-- KubernetesUpgrade (api/v1alpha1/kubernetesupgrade_types.go). Times, durations and nil pointers are
-- as in Api/Talos.
use tuppr.Prelude.{ℕ, String, Bool, Option, List}
use tuppr.Api.Phase.{JobPhase}
use tuppr.Api.Cluster.{StringMap}
use tuppr.Api.Talos.{Time, HealthCheckSpec, TalosctlSpec, WindowSpec, Condition}

pub record KubernetesSpec : Type 0 where
  pub version : String
  pub image_repository : String
  pub endpoint : String

pub record KubernetesUpgradeSpec : Type 0 where
  pub kubernetes : KubernetesSpec
  pub talosctl : TalosctlSpec
  pub health_checks : List HealthCheckSpec
  pub maintenance : Option (List WindowSpec)

pub record UpgradeHistoryEntry : Type 0 where
  pub from_version : String
  pub to_version : String
  pub started_at : Time
  pub completed_at : Time
  pub phase : JobPhase
  pub retries : ℕ
  pub last_error : String

pub record KubernetesUpgradeStatus : Type 0 where
  pub conditions : List Condition
  pub phase : JobPhase
  pub controller_node : String
  pub current_version : String
  pub target_version : String
  pub message : String
  pub observed_generation : ℕ
  pub job_name : String
  pub retries : ℕ
  pub last_error : String
  pub next_maintenance_window : Option Time
  pub started_at : Option Time
  pub completed_at : Option Time
  pub history : List UpgradeHistoryEntry
  pub completion_cycles : ℕ
  pub health_checks_failing_since : Option Time

pub record KubernetesUpgrade : Type 0 where
  pub name : String
  pub annotations : StringMap
  pub finalizers : List String
  pub deleting : Bool  -- DeletionTimestamp != nil
  pub generation : ℕ
  pub spec : KubernetesUpgradeSpec
  pub status : KubernetesUpgradeStatus
