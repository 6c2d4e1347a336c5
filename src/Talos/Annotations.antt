-- ===== src/Talos/Annotations.antt =====
-- What restarts or holds a run: internal/controller/talosupgrade/annotations.go, resetRunProgress of
-- hooks.go, and the branch of processUpgrade for a run that is over (upgrade.go).
use tuppr.Prelude.{
  ℕ, ◌+◌, ◌*◌, String, Bool, true, false, not, Option, none, some, List, [], ◌∷◌, leb, str_eq, ◌⧺◌,
  filter, is_nil, if◌then◌else◌,
}
use tuppr.Api.Phase.{JobPhase, is_failed}
use tuppr.Api.Cluster.{lookup, has_key}
use tuppr.Api.Talos.{TalosUpgradeStatus}
use tuppr.Audit.{max_completion_cycles}
use tuppr.Maintenance.{second, minute, hour}
use tuppr.Talos.Next.{find_next_nodes}
use tuppr.Talos.Phase.{
  set_phase, set_pending_with_reason, set_phase_with_updates, report_reconcile_error,
}
use tuppr.Talos.Status.{Update}
use tuppr.Talos.World.{
  Env, M, ⊤, Result, ok, err, Error, Effect, wrap, pure, status, upgrade, modify_status,
  modify_upgrade, write, requeue, fail, ◌>>=◌, ◌>>◌,
}

abbrev pub reset_annotation : String
reset_annotation = "tuppr.home-operations.com/reset"

abbrev pub suspend_annotation : String
suspend_annotation = "tuppr.home-operations.com/suspend"

-- The progress that every restart clears, with the completion cycles that it leaves.
abbrev pub restart_updates : ℕ → List Update
restart_updates cycles =
    Update.completed_nodes []
    ∷ Update.failed_nodes []
    ∷ Update.rebooting_nodes []
    ∷ Update.pre_hook_index 0
    ∷ Update.post_hook_index 0
    ∷ Update.pre_hook_failed false
    ∷ Update.pre_pulled_nodes []
    ∷ Update.pre_pull_failure none
    ∷ Update.completion_cycles cycles
    ∷ []

-- resetRunProgress, after CompletionCycles is set.
abbrev pub reset_run_progress : ℕ → TalosUpgradeStatus → TalosUpgradeStatus
reset_run_progress cycles s = record s {
  completion_cycles = cycles;
  pre_hook_index = 0;
  post_hook_index = 0;
  pre_hook_failed = false;
  pre_pulled_nodes = [];
  pre_pull_failure = none;
}

module _ (env : Env) where
  -- The common end of the three restarts: the phase is written, then the object in memory follows.
  unfoldable pub restart : ℕ → String → M (Option Error)
  unfolding set_phase_with_updates
  restart cycles message = do
    failed ← set_phase_with_updates env JobPhase.pending "" [] message (restart_updates cycles)
    elim failed [
      | some e ↦ pure (some e)
      | none ↦ do modify_status (reset_run_progress cycles); pure none
    ]

  -- The end of handleSuspendAnnotation, on the answer of the status write: whether the run is
  -- suspended, and the error beside it.
  unfoldable pub suspend_answer : Option Error → M (Bool × Option Error)
  suspend_answer (some e) = pure (true, some (wrap "update phase for suspension" e))
  suspend_answer none = pure (true, none)

  -- handleSuspendAnnotation on the value of the annotation.
  unfoldable pub suspend : Option String → M (Bool × Option Error)
  unfolding set_phase_with_updates suspend_answer
  suspend none = pure (false, none)
  suspend (some value) = do
    failed ←
        set_pending_with_reason env "Suspended" (
          "Controller suspended via annotation (value: " ⧺ value
          ⧺ ") - remove annotation to resume")
    suspend_answer failed

  -- handleSuspendAnnotation
  unfoldable pub handle_suspend_annotation : M (Bool × Option Error)
  unfolding suspend
  handle_suspend_annotation = do u ← upgrade; suspend (lookup suspend_annotation u.annotations)

  -- handleResetAnnotation. The status that the API server sends back with the update is the one
  -- that the pass began with: it is left as it is in memory.
  unfoldable pub handle_reset_annotation : M (Result Bool)
  unfolding restart
  handle_reset_annotation = do
    u ← upgrade
    if not (has_key reset_annotation u.annotations) then pure (ok false) else do
      modify_upgrade (λ u. record u {
        annotations = filter (λ (k, _). not (str_eq k reset_annotation)) u.annotations;
      })
      failed ← write env Effect.update_object
      elim failed [
        | some e ↦ pure (err (wrap "remove reset annotation" e))
        | none ↦ do
          r ← restart 0 "Reset requested via annotation"
          elim r [
            | some e ↦ pure (err (wrap "reset status after annotation" e))
            | none ↦ pure (ok true)
          ]
      ]

  -- handleGenerationChange
  unfoldable pub handle_generation_change : M (Result Bool)
  unfolding restart
  handle_generation_change = do
    u ← upgrade
    if leb u.generation u.status.observed_generation then pure (ok false) else do
      r ← restart 0 "Spec updated, restarting upgrade process"
      elim r [ some e ↦ pure (err e) | none ↦ pure (ok true) ]

  -- A completed run that finds a node to upgrade: one more cycle, up to the limit.
  next_cycle : M ⊤
  unfolding restart set_phase_with_updates
  next_cycle = do
    u ← upgrade
    let cycles = u.status.completion_cycles
    if leb max_completion_cycles cycles
        then (do
          failed ← set_phase env JobPhase.failed (
              "Node(s) never converged to "
              ⧺ u.spec.talos.version
              ⧺ " after "
              ⧺ env.decimal cycles
              ⧺ " completion cycles; add the "
              ⧺ reset_annotation
              ⧺ " annotation or bump the spec to retry")
          elim failed [
            | some e ↦ fail (wrap "set Failed phase after exhausting completion cycles" e)
            | none ↦ requeue hour
          ])
        else (do
          failed ← restart (cycles + 1) "New node detected, restarting upgrade"
          elim failed [
            | some e ↦ fail (wrap "re-enter Pending after completion" e)
            | none ↦ requeue (5 * second)
          ])

  -- The branch of processUpgrade for a terminal phase.
  unfoldable pub process_terminal : M ⊤
  unfolding next_cycle find_next_nodes report_reconcile_error
  process_terminal = do
    s ← status
    if is_failed s.phase then requeue (5 * minute) else do
      r ← find_next_nodes env 1
      elim r [
        | err e ↦
            report_reconcile_error env "FindNextNodes" "re-check nodes for restart" (5 * minute) e
        | ok found ↦ if is_nil found.pending then requeue hour else next_cycle
      ]
