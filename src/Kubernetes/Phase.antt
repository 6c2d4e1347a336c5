-- ===== src/Kubernetes/Phase.antt =====
-- Phase transitions of a KubernetesUpgrade: setPhaseWithUpdates and its callers (controller.go), and
-- the audit fields that go with them (audit.go).
use tuppr.Prelude.{
  String, Bool, Option, none, some, List, [], ◌∷◌, ◌++◌, ◌&&◌, not, str_eq, ◌⧺◌, is_nil, is_none,
  if◌then◌else◌,
}
use tuppr.Api.Phase.{
  JobPhase, is_active, is_terminal, is_pending, is_completed, is_failed, is_health_checking,
}
use tuppr.Api.Cluster.{is_empty}
use tuppr.Api.Talos.{Time, Duration, Condition}
use tuppr.Api.Kubernetes.{KubernetesUpgrade, KubernetesUpgradeStatus, UpgradeHistoryEntry}
use tuppr.Audit.{apply_conditions, conditions_equal, prepend_history, history_max_entries}
use tuppr.Talos.Phase.{same_phase}
use tuppr.Talos.World.{Error}
use tuppr.Kubernetes.Status.{Update, sync_local_audit_fields}
use tuppr.Kubernetes.World.{
  Env, M, pure, ask, upgrade, modify_status, update_status, requeue, ◌>>=◌, ◌>>◌,
}

-- FirstNonEmpty of upgradeaudit.go, on two values.
abbrev pub first_non_empty : String → String → String
first_non_empty a b = if is_empty a then b else a

-- The entry that a terminal phase adds.
abbrev pub upgrade_history_entry :
    KubernetesUpgradeStatus → JobPhase → Time → String → UpgradeHistoryEntry
upgrade_history_entry s next now message = record {
  from_version = s.current_version;
  to_version = s.target_version;
  started_at = elim s.started_at [ none ↦ now | some t ↦ t ];
  completed_at = now;
  phase = next;
  retries = s.retries;
  last_error = if is_failed next then first_non_empty s.last_error message else "";
}

-- The updates of the terminal branch, where CompletedAt is not set yet.
unfoldable pub terminal_updates : KubernetesUpgradeStatus → JobPhase → Time → String → List Update
unfolding prepend_history
terminal_updates s next now message =
    Update.completed_at (some now)
    ∷ (if is_completed next && is_none s.started_at
        then []
        else Update.history (
            prepend_history s.history (upgrade_history_entry s next now message)
              history_max_entries)
          ∷ [])

-- applyPhaseAuditFields: what it adds to the updates.
unfoldable pub apply_phase_audit_fields :
    KubernetesUpgradeStatus → JobPhase → Time → String → List Update
unfolding terminal_updates
apply_phase_audit_fields s next now message =
    if is_pending next && not (is_pending s.phase)
    then Update.started_at none ∷ Update.completed_at none ∷ []
    else (if is_active next && is_none s.started_at
        then Update.started_at (some now) ∷ []
        else (if is_terminal next && not (is_terminal s.phase)
            then (if is_none s.completed_at then terminal_updates s next now message else [])
            else []))

-- What changes on the object in memory once the patch went through.
abbrev pub written :
    JobPhase
    → String
    → String
    → List Condition
    → List Update
    → KubernetesUpgradeStatus
    → KubernetesUpgradeStatus
written p node text conds updates s = sync_local_audit_fields updates (
    if is_health_checking p
    then record s { phase = p; controller_node = node; message = text; conditions = conds }
    else record s {
      phase = p;
      controller_node = node;
      message = text;
      conditions = conds;
      health_checks_failing_since = none;
    })

module _ (env : Env) where
  -- The updates that setPhaseWithUpdates writes.
  unfoldable pub phase_updates :
      KubernetesUpgradeStatus
      → JobPhase
      → String
      → String
      → List Condition
      → List Update
      → Time
      → List Update
  unfolding apply_phase_audit_fields
  phase_updates s p node text conds extra now =
      (Update.phase p
        ∷ Update.controller_node node
        ∷ Update.message text
        ∷ Update.conditions conds
        ∷ [])
      ++ (extra
          ++ ((if is_health_checking p then [] else Update.health_checks_failing_since none ∷ [])
              ++ apply_phase_audit_fields s p now text))

  -- `conditions` after the transition.
  unfoldable pub next_conditions : KubernetesUpgrade → JobPhase → String → String → List Condition
  unfolding apply_conditions
  next_conditions u p reason text =
      apply_conditions env.conditions u.status.conditions p reason text u.generation

  unfoldable pub is_unchanged :
      KubernetesUpgrade → JobPhase → String → String → String → List Update → Bool
  unfolding next_conditions conditions_equal
  is_unchanged u p reason node text extra =
      is_nil extra
      && same_phase u.status.phase p
      && str_eq u.status.message text
      && str_eq u.status.controller_node node
      && conditions_equal env.conditions u.status.conditions (next_conditions u p reason text)

  -- The in-memory half, on the outcome of the patch.
  unfoldable pub after_patch :
      Option Error → (KubernetesUpgradeStatus → KubernetesUpgradeStatus) → M (Option Error)
  after_patch (some e) f = pure (some e)
  after_patch none f = do modify_status f; pure none

  -- setPhaseWithUpdates
  unfoldable pub set_phase_with_updates :
      JobPhase → String → String → String → List Update → M (Option Error)
  unfolding phase_updates next_conditions is_unchanged after_patch
  set_phase_with_updates p reason node text extra = do
    u ← upgrade
    if is_unchanged u p reason node text extra then pure none else do
      now ← ask env.now
      let conds = next_conditions u p reason text
      let updates = phase_updates u.status p node text conds extra now
      failed ← update_status env updates
      after_patch failed (written p node text conds updates)

  -- setPhase
  abbrev pub set_phase : JobPhase → String → String → M (Option Error)
  set_phase p node text = set_phase_with_updates p "" node text []

  -- setPendingWithReason
  abbrev pub set_pending_with_reason : String → String → M (Option Error)
  set_pending_with_reason reason text = set_phase_with_updates JobPhase.pending reason "" text []

  -- reportReconcileError, whose callers return its result: a failed status write is only logged.
  unfoldable pub report_reconcile_error : {A : Type 0} → String → String → Duration → Error → M A
  unfolding set_phase_with_updates
  report_reconcile_error reason op after e = do
    set_pending_with_reason reason ("Cannot " ⧺ op ⧺ ": " ⧺ e.text)
    requeue after
