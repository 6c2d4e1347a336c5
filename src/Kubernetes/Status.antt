-- ===== src/Kubernetes/Status.antt =====
-- A merge patch of the status of a KubernetesUpgrade: the fields that a map of updates names
-- (internal/controller/kubernetesupgrade), and what the API server does with it. `lastUpdated` is
-- left out.
use tuppr.Prelude.{ℕ, String, Bool, true, false, Option, some, List, [], ◌∷◌}
use tuppr.Api.Phase.{JobPhase}
use tuppr.Api.Talos.{Time, Condition}
use tuppr.Api.Kubernetes.{UpgradeHistoryEntry, KubernetesUpgradeStatus}

pub data Update : Type 0 where
  phase : JobPhase → Update
  controller_node : String → Update
  message : String → Update
  conditions : List Condition → Update
  observed_generation : ℕ → Update
  current_version : String → Update
  target_version : String → Update
  job_name : String → Update
  retries : ℕ → Update
  last_error : String → Update
  next_maintenance_window : Time → Update
  started_at : Option Time → Update
  completed_at : Option Time → Update
  history : List UpgradeHistoryEntry → Update
  completion_cycles : ℕ → Update
  health_checks_failing_since : Option Time → Update

abbrev pub apply_update : Update → KubernetesUpgradeStatus → KubernetesUpgradeStatus
apply_update (Update.phase p) s = record s { phase = p }
apply_update (Update.controller_node v) s = record s { controller_node = v }
apply_update (Update.message v) s = record s { message = v }
apply_update (Update.conditions v) s = record s { conditions = v }
apply_update (Update.observed_generation v) s = record s { observed_generation = v }
apply_update (Update.current_version v) s = record s { current_version = v }
apply_update (Update.target_version v) s = record s { target_version = v }
apply_update (Update.job_name v) s = record s { job_name = v }
apply_update (Update.retries v) s = record s { retries = v }
apply_update (Update.last_error v) s = record s { last_error = v }
apply_update (Update.next_maintenance_window v) s = record s { next_maintenance_window = some v }
apply_update (Update.started_at v) s = record s { started_at = v }
apply_update (Update.completed_at v) s = record s { completed_at = v }
apply_update (Update.history v) s = record s { history = v }
apply_update (Update.completion_cycles v) s = record s { completion_cycles = v }
apply_update (Update.health_checks_failing_since v) s = record s { health_checks_failing_since = v }

-- A later entry for a field overrides an earlier one, as in the map.
abbrev pub apply_updates : List Update → KubernetesUpgradeStatus → KubernetesUpgradeStatus
apply_updates [] s = s
apply_updates (u ∷ us) s = apply_updates us (apply_update u s)

-- `_, ok := updates["observedGeneration"]`
abbrev pub names_generation : List Update → Bool
names_generation [] = false
names_generation (Update.observed_generation g ∷ us) = true
names_generation (_ ∷ us) = names_generation us

-- The fields that syncLocalAuditFields (audit.go) mirrors onto the object in memory.
abbrev pub sync_update : Update → KubernetesUpgradeStatus → KubernetesUpgradeStatus
sync_update (Update.started_at v) s = record s { started_at = v }
sync_update (Update.completed_at v) s = record s { completed_at = v }
sync_update (Update.history v) s = record s { history = v }
sync_update _ s = s

-- syncLocalAuditFields, with SyncTimingFields of upgradeaudit/status.go.
abbrev pub sync_local_audit_fields : List Update → KubernetesUpgradeStatus → KubernetesUpgradeStatus
sync_local_audit_fields [] s = s
sync_local_audit_fields (u ∷ us) s = sync_local_audit_fields us (sync_update u s)
