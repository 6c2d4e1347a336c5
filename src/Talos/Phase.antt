-- ===== src/Talos/Phase.antt =====
-- Phase transitions: setPhaseWithUpdates and its callers (controller.go), and the audit fields that
-- go with them (audit.go).
pub mod Patches
pub mod Record
use tuppr.Prelude.{
  ℕ, String, Bool, true, false, Option, none, some, List, [], ◌∷◌, ◌++◌, ◌&&◌, not, map, str_eq,
  ◌⧺◌, is_nil, is_none, if◌then◌else◌,
}
use tuppr.Api.Phase.{
  JobPhase, phase_text, is_active, is_terminal, is_pending, is_completed, is_health_checking,
}
use tuppr.Api.Talos.{Time, Duration, Condition, TalosUpgrade, TalosUpgradeStatus, HistoryEntry}
use tuppr.Audit.{apply_conditions, conditions_equal, prepend_history, history_max_entries}
use tuppr.Talos.Status.{Update, sync_local_audit_fields}
use tuppr.Talos.World.{
  Env, M, Error, ⊤, pure, ask, status, upgrade, modify_status, update_status, requeue, plain_error,
  ◌>>=◌, ◌>>◌,
}

-- The entry that a terminal phase adds.
abbrev pub history_entry : TalosUpgradeStatus → JobPhase → Time → String → HistoryEntry
history_entry s next now target = record {
  to_version = target;
  started_at = elim s.started_at [ none ↦ now | some t ↦ t ];
  completed_at = now;
  phase = next;
  completed_nodes = s.completed_nodes;
  failed_nodes = map (λ n. n.node_name) s.failed_nodes;
}

-- The updates of the terminal branch, where CompletedAt is not set yet.
terminal_updates : TalosUpgradeStatus → JobPhase → Time → String → List Update
unfolding prepend_history
terminal_updates s next now target =
    Update.completed_at (some now)
    ∷ (if is_completed next && is_none s.started_at
        then []
        else Update.history
            (prepend_history s.history (history_entry s next now target) history_max_entries)
          ∷ [])

-- applyPhaseAuditFields: what it adds to the updates.
unfoldable pub apply_phase_audit_fields :
    TalosUpgradeStatus → JobPhase → Time → String → List Update
unfolding terminal_updates
apply_phase_audit_fields s next now target =
    if is_pending next && not (is_pending s.phase)
    then Update.started_at none ∷ Update.completed_at none ∷ []
    else (if is_active next && is_none s.started_at
        then Update.started_at (some now) ∷ []
        else (if is_terminal next && not (is_terminal s.phase)
            then (if is_none s.completed_at then terminal_updates s next now target else [])
            else []))

-- `slices.Equal` on names.
abbrev pub same_names : List String → List String → Bool
same_names [] [] = true
same_names (x ∷ xs) (y ∷ ys) = str_eq x y && same_names xs ys
same_names _ _ = false

abbrev pub same_phase : JobPhase → JobPhase → Bool
same_phase p q = str_eq (phase_text p) (phase_text q)

-- `currentNodes[0]`, or no name.
abbrev pub first_name : List String → String
first_name [] = ""
first_name (name ∷ names) = name

-- What changes on the object in memory once the patch went through: currentNode is patched only.
abbrev pub written :
    JobPhase
    → List String
    → String
    → List Condition
    → List Update
    → TalosUpgradeStatus
    → TalosUpgradeStatus
written p nodes text conds updates s = sync_local_audit_fields updates (
    if is_health_checking p
    then record s { phase = p; current_nodes = nodes; message = text; conditions = conds }
    else record s {
      phase = p;
      current_nodes = nodes;
      message = text;
      conditions = conds;
      health_checks_failing_since = none;
    })

module _ (env : Env) where
  -- The updates that setPhaseWithUpdates writes.
  phase_updates :
      TalosUpgrade
      → JobPhase
      → List String
      → String
      → List Condition
      → List Update
      → Time
      → List Update
  unfolding apply_phase_audit_fields
  phase_updates u p nodes text conds extra now =
      (Update.phase p
        ∷ Update.current_node (first_name nodes)
        ∷ Update.current_nodes nodes
        ∷ Update.message text
        ∷ Update.conditions conds
        ∷ [])
      ++ (extra
          ++ ((if is_health_checking p then [] else Update.health_checks_failing_since none ∷ [])
              ++ apply_phase_audit_fields u.status p now u.spec.talos.version))

  -- `conditions` after the transition.
  next_conditions : TalosUpgrade → JobPhase → String → String → List Condition
  unfolding apply_conditions
  next_conditions u p reason text =
      apply_conditions env.conditions u.status.conditions p reason text u.generation

  is_unchanged : TalosUpgrade → JobPhase → String → List String → String → List Update → Bool
  unfolding next_conditions conditions_equal
  is_unchanged u p reason nodes text extra =
      is_nil extra
      && same_phase u.status.phase p
      && str_eq u.status.message text
      && same_names u.status.current_nodes nodes
      && conditions_equal env.conditions u.status.conditions (next_conditions u p reason text)

  -- The in-memory half, on the outcome of the patch.
  after_patch : Option Error → (TalosUpgradeStatus → TalosUpgradeStatus) → M (Option Error)
  after_patch (some e) f = pure (some e)
  after_patch none f = do modify_status f; pure none

  -- setPhaseWithUpdates
  unfoldable pub set_phase_with_updates :
      JobPhase → String → List String → String → List Update → M (Option Error)
  unfolding phase_updates next_conditions is_unchanged after_patch
  set_phase_with_updates p reason nodes text extra = do
    u ← upgrade
    if is_unchanged u p reason nodes text extra then pure none else do
      now ← ask env.now
      let conds = next_conditions u p reason text
      let updates = phase_updates u p nodes text conds extra now
      failed ← update_status env updates
      after_patch failed (written p nodes text conds updates)

  -- setPhaseWithNodes
  abbrev pub set_phase_with_nodes : JobPhase → List String → String → M (Option Error)
  set_phase_with_nodes p nodes text = set_phase_with_updates p "" nodes text []

  -- setPhase
  abbrev pub set_phase : JobPhase → String → M (Option Error)
  set_phase p text = set_phase_with_nodes p [] text

  -- setPendingWithReason
  abbrev pub set_pending_with_reason : String → String → M (Option Error)
  set_pending_with_reason reason text = set_phase_with_updates JobPhase.pending reason [] text []

  -- reportReconcileError, whose callers return its result: a failed status write is only logged.
  unfoldable pub report_reconcile_error : {A : Type 0} → String → String → Duration → Error → M A
  report_reconcile_error reason op after e = do
    set_pending_with_reason reason ("Cannot " ⧺ op ⧺ ": " ⧺ e.text)
    requeue after
