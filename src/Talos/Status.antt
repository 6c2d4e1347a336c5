-- ===== src/Talos/Status.antt =====
-- A merge patch of the status subresource: the fields that a map of updates names (the `status…`
-- constants of controller.go), and what the API server does with it. `currentNode` is the first of
-- `currentNodes`, and `lastUpdated` a time stamp; both are left out.
use tuppr.Prelude.{ℕ, String, Bool, true, false, Option, some, List, [], ◌∷◌}
use tuppr.Api.Phase.{JobPhase}
use tuppr.Api.Talos.{
  Time, Condition, NodeUpgradeStatus, NodeRebootStatus, PrePulledNode, PrePullFailure, HistoryEntry,
  TalosUpgradeStatus,
}

pub data Update : Type 0 where
  phase : JobPhase → Update
  current_node : String → Update
  current_nodes : List String → Update
  message : String → Update
  conditions : List Condition → Update
  observed_generation : ℕ → Update
  completed_nodes : List String → Update
  failed_nodes : List NodeUpgradeStatus → Update
  rebooting_nodes : List NodeRebootStatus → Update
  next_maintenance_window : Time → Update
  started_at : Option Time → Update
  completed_at : Option Time → Update
  history : List HistoryEntry → Update
  completion_cycles : ℕ → Update
  health_checks_failing_since : Option Time → Update
  pre_hook_index : ℕ → Update
  post_hook_index : ℕ → Update
  pre_hook_failed : Bool → Update
  pre_pulled_nodes : List PrePulledNode → Update
  pre_pull_failure : Option PrePullFailure → Update
  alert_silence_ids : List String → Update
  alert_silences_since : Option Time → Update

abbrev pub apply_update : Update → TalosUpgradeStatus → TalosUpgradeStatus
apply_update (Update.phase p) s = record s { phase = p }
apply_update (Update.current_node v) s = record s { current_node = v }
apply_update (Update.current_nodes v) s = record s { current_nodes = v }
apply_update (Update.message v) s = record s { message = v }
apply_update (Update.conditions v) s = record s { conditions = v }
apply_update (Update.observed_generation v) s = record s { observed_generation = v }
apply_update (Update.completed_nodes v) s = record s { completed_nodes = v }
apply_update (Update.failed_nodes v) s = record s { failed_nodes = v }
apply_update (Update.rebooting_nodes v) s = record s { rebooting_nodes = v }
apply_update (Update.next_maintenance_window v) s = record s { next_maintenance_window = some v }
apply_update (Update.started_at v) s = record s { started_at = v }
apply_update (Update.completed_at v) s = record s { completed_at = v }
apply_update (Update.history v) s = record s { history = v }
apply_update (Update.completion_cycles v) s = record s { completion_cycles = v }
apply_update (Update.health_checks_failing_since v) s = record s { health_checks_failing_since = v }
apply_update (Update.pre_hook_index v) s = record s { pre_hook_index = v }
apply_update (Update.post_hook_index v) s = record s { post_hook_index = v }
apply_update (Update.pre_hook_failed v) s = record s { pre_hook_failed = v }
apply_update (Update.pre_pulled_nodes v) s = record s { pre_pulled_nodes = v }
apply_update (Update.pre_pull_failure v) s = record s { pre_pull_failure = v }
apply_update (Update.alert_silence_ids v) s = record s { alert_silence_ids = v }
apply_update (Update.alert_silences_since v) s = record s { alert_silences_since = v }

-- A later entry for a field overrides an earlier one, as in the map.
abbrev pub apply_updates : List Update → TalosUpgradeStatus → TalosUpgradeStatus
apply_updates [] s = s
apply_updates (u ∷ us) s = apply_updates us (apply_update u s)

-- `_, ok := updates["observedGeneration"]`
abbrev pub names_generation : List Update → Bool
names_generation [] = false
names_generation (Update.observed_generation g ∷ us) = true
names_generation (_ ∷ us) = names_generation us

-- The fields that syncLocalAuditFields (audit.go) mirrors onto the object in memory.
abbrev pub sync_update : Update → TalosUpgradeStatus → TalosUpgradeStatus
sync_update (Update.started_at v) s = record s { started_at = v }
sync_update (Update.completed_at v) s = record s { completed_at = v }
sync_update (Update.history v) s = record s { history = v }
sync_update (Update.completed_nodes v) s = record s { completed_nodes = v }
sync_update (Update.failed_nodes v) s = record s { failed_nodes = v }
sync_update (Update.rebooting_nodes v) s = record s { rebooting_nodes = v }
sync_update _ s = s

-- syncLocalAuditFields, with SyncTimingFields of upgradeaudit/status.go.
abbrev pub sync_local_audit_fields : List Update → TalosUpgradeStatus → TalosUpgradeStatus
sync_local_audit_fields [] s = s
sync_local_audit_fields (u ∷ us) s = sync_local_audit_fields us (sync_update u s)
