-- ===== src/Talos/Process.antt =====
-- One pass over a plan (internal/controller/talosupgrade/upgrade.go): processUpgrade,
-- processNextBatch, checkMaintenanceWindow, checkCoordination, maybeEnterPreHook,
-- transitionToFinalize, completeUpgrade, finishRun and parkForClosedWindow. syncAlertSilences comes
-- as an argument, `sync`.
pub mod Suspended
use tuppr.Prelude.{
  ℕ, ◌*◌, String, Bool, true, false, not, ◌&&◌, ◌||◌, Option, none, some, List, [], ◌∷◌, ltb, leb,
  ◌⧺◌, length, is_nil, is_none, if◌then◌else◌,
}
use tuppr.Api.Phase.{JobPhase, is_active, is_terminal}
use tuppr.Api.Talos.{Time}
use tuppr.Coordination.{Verdict, UpgradeType, is_another_upgrade_active}
use tuppr.Maintenance.{WindowResult, Checked, check_window, requeue_after, second, minute}
use tuppr.Talos.Annotations.{
  handle_suspend_annotation, handle_reset_annotation, handle_generation_change, process_terminal,
}
use tuppr.Talos.Batch.{get_parallelism, next_batch, wait_for_control_plane_slot, build_batch_images}
use tuppr.Talos.Health.{
  join, pre_hooks, post_hooks, has_pre_hooks, has_post_hooks, inter_batch_health_checks,
  wait_for_cluster_health, wait_for_health_checks,
}
use tuppr.Talos.Hooks.{HookPhase, process_hook_phase}
use tuppr.Talos.Jobs.{find_active_jobs, handle_batch_job_status}
use tuppr.Talos.Next.{find_next_nodes, record_out_of_band_completed_nodes}
use tuppr.Talos.Nodes.{}
use tuppr.Talos.Phase.{
  set_phase, set_pending_with_reason, set_phase_with_updates, report_reconcile_error,
}
use tuppr.Talos.PrePull.{pre_pull_installer_images}
use tuppr.Talos.Recovery.{process_rebooting_nodes}
use tuppr.Talos.Start.{start_batch}
use tuppr.Talos.Status.{Update}
use tuppr.Talos.World.{
  Env, M, ⊤, Result, ok, err, Error, wrap, plain_error, pure, ask, status, upgrade, requeue, fail,
  stop_with, never_return, ◌>>=◌, ◌>>◌,
}

-- math.MaxInt
abbrev pub max_int : ℕ
max_int = 9223372036854775807

-- `MaintenanceRes.NextWindowStart`, which a closed window has.
abbrev pub next_start : WindowResult → Time
next_start r = elim r.next_window_start [ none ↦ 0 | some t ↦ t ]

module _ (env : Env) where
  -- completeUpgrade
  unfoldable pub complete_upgrade : M ⊤
  unfolding set_phase_with_updates
  complete_upgrade = do
    s ← status
    failed ←
        (if s.pre_hook_failed
          then set_phase env JobPhase.failed "Pre-upgrade hook failed; upgrade did not run"
          else (if not (is_nil s.failed_nodes)
              then set_phase env JobPhase.failed (
                  "Completed with failures: "
                  ⧺ env.decimal (length s.completed_nodes)
                  ⧺ " successful, "
                  ⧺ env.decimal (length s.failed_nodes)
                  ⧺ " failed")
              else set_phase env JobPhase.completed
                  ("Successfully upgraded " ⧺ env.decimal (length s.completed_nodes) ⧺ " nodes")))
    elim failed [ some e ↦ fail (wrap "update completion phase" e) | none ↦ requeue (5 * minute) ]

  -- transitionToFinalize
  unfoldable pub transition_to_finalize : M ⊤
  unfolding complete_upgrade set_phase_with_updates
  transition_to_finalize = do
    u ← upgrade
    if has_post_hooks u && ltb u.status.post_hook_index (length (post_hooks u))
        then (do
          failed ← set_phase env JobPhase.post_hook "Running post-hooks"
          elim failed [
            | some e ↦ fail (wrap "transition to PostHook" e)
            | none ↦ requeue (5 * second)
          ])
        else complete_upgrade

  -- maybeEnterPreHook
  unfoldable pub maybe_enter_pre_hook : M ⊤
  unfolding set_phase_with_updates
  maybe_enter_pre_hook = do
    u ← upgrade
    if not (has_pre_hooks u)
          || u.status.pre_hook_failed
          || leb (length (pre_hooks u)) u.status.pre_hook_index
        then pure tt
        else (do
          failed ← set_phase env JobPhase.pre_hook "Running pre-upgrade hooks"
          elim failed [
            | some e ↦ fail (wrap "enter PreHook phase" e)
            | none ↦ requeue (5 * second)
          ])

  -- The wait for a window, with its message.
  await_window : WindowResult → String → M ⊤
  unfolding requeue_after set_phase_with_updates
  await_window r text = do
    set_phase_with_updates env JobPhase.maintenance_window "" []
        (text ⧺ " (next: " ⧺ env.format_time (next_start r) ⧺ ")")
        (Update.next_maintenance_window (next_start r) ∷ [])
    now ← ask env.now
    requeue (requeue_after r now)

  -- `maintenance.CheckWindow`, whose error both callers report alike.
  unfoldable pub ask_window : M WindowResult
  unfolding check_window report_reconcile_error
  ask_window = do
    u ← upgrade
    now ← ask env.now
    elim (check_window env.calendar u.spec.maintenance now) [
      | Checked.bad_window ↦
          report_reconcile_error env "CheckMaintenanceWindow" "evaluate maintenance window"
            (30 * second) (plain_error "bad window")
      | Checked.no_answer ↦ never_return
      | Checked.result r ↦ pure r
    ]

  -- checkMaintenanceWindow
  unfoldable pub check_maintenance_window : M ⊤
  unfolding ask_window await_window
  check_maintenance_window = do
    r ← ask_window
    if r.allowed then pure tt else await_window r "Waiting for maintenance window"

  -- parkForClosedWindow
  unfoldable pub park_for_closed_window : WindowResult → M ⊤
  unfolding await_window wait_for_cluster_health
  park_for_closed_window r = do
    s ← status
    (if is_nil s.completed_nodes then pure tt else wait_for_cluster_health env)
    await_window r "Maintenance window closed between nodes, waiting"

  -- checkCoordination
  unfoldable pub check_coordination : M ⊤
  unfolding is_another_upgrade_active report_reconcile_error set_phase_with_updates
  check_coordination = do
    u ← upgrade
    kubernetes_plans ← ask env.list_kubernetes_plans
    talos_plans ← ask env.list_talos_plans
    elim (is_another_upgrade_active kubernetes_plans talos_plans u.name UpgradeType.talos) [
      | Verdict.list_failed ↦
          report_reconcile_error env "CheckCoordination" "check for other active upgrades" minute
            (plain_error "list failed")
      | Verdict.blocked message ↦ do
        set_pending_with_reason env "WaitingForOtherUpgrade" message
        requeue (2 * minute)
      | Verdict.free ↦ pure tt
    ]

  -- finishRun
  unfoldable pub finish_run : M ⊤
  unfolding record_out_of_band_completed_nodes wait_for_cluster_health transition_to_finalize
  finish_run = do
    s ← status
    r ← record_out_of_band_completed_nodes env
    let resumed : Bool = elim r [ err e ↦ true | ok b ↦ b ]
    (if not (is_nil s.completed_nodes) || resumed then wait_for_cluster_health env else pure tt)
    transition_to_finalize

  -- The health checks of processNextBatch.
  run_health_checks : M ⊤
  unfolding inter_batch_health_checks wait_for_health_checks
  run_health_checks = do
    u ← upgrade
    let (checks, skip) = inter_batch_health_checks u
    if skip then pure tt else wait_for_health_checks env checks

  -- processNextBatch once there are pending nodes.
  upgrade_pending : List String → M ⊤
  unfolding pre_pull_installer_images next_batch wait_for_control_plane_slot build_batch_images
      wait_for_cluster_health run_health_checks maybe_enter_pre_hook start_batch
      report_reconcile_error
  upgrade_pending pending = do
    pre_pull_installer_images env pending
    u ← upgrade
    r ← next_batch env pending (get_parallelism u.spec)
    elim r [
      | err e ↦ report_reconcile_error env "FindNextNodes" "select next batch" minute e
      | ok nodes ↦ do
        wait_for_control_plane_slot env nodes pending
        batch ← build_batch_images env nodes
        wait_for_cluster_health env
        run_health_checks
        maybe_enter_pre_hook
        start_batch env nodes batch
    ]

  -- processNextBatch
  unfoldable pub process_next_batch : M ⊤
  unfolding ask_window park_for_closed_window find_next_nodes finish_run upgrade_pending
      report_reconcile_error
  process_next_batch = do
    window ← ask_window
    if not window.allowed then park_for_closed_window window else do
      r ← find_next_nodes env max_int
      elim r [
        | err e ↦ report_reconcile_error env "FindNextNodes" "find candidate nodes" minute e
        | ok found ↦
            if not (is_nil found.unreachable)
            then (do
              set_pending_with_reason env "NodeUnreachable"
                  ("Waiting for unreachable node(s): " ⧺ join found.unreachable)
              requeue minute)
            else (if is_nil found.pending then finish_run else upgrade_pending found.pending)
      ]

  -- The PreHook and PostHook branches of processUpgrade.
  process_pre_hooks : M ⊤
  unfolding process_hook_phase transition_to_finalize set_phase_with_updates
  process_pre_hooks = do
    process_hook_phase env HookPhase.pre
    s ← status
    if s.pre_hook_failed then transition_to_finalize else do
      set_phase env JobPhase.pending "Pre-hooks complete; starting upgrade"
      requeue (5 * second)

  process_post_hooks : M ⊤
  unfolding process_hook_phase complete_upgrade
  process_post_hooks = do process_hook_phase env HookPhase.post; complete_upgrade

  -- processUpgrade past the hooks.
  process_run : M ⊤
  unfolding check_maintenance_window check_coordination find_active_jobs handle_batch_job_status
      process_rebooting_nodes transition_to_finalize process_next_batch report_reconcile_error
  process_run = do
    s ← status
    (if is_active s.phase then pure tt else do check_maintenance_window; check_coordination)
    r ← find_active_jobs env
    elim r [
      | err e ↦ report_reconcile_error env "FindActiveJobs" "list active upgrade jobs" minute e
      | ok jobs ↦ if not (is_nil jobs) then handle_batch_job_status env jobs else do
        process_rebooting_nodes env
        s ← status
        if is_nil s.failed_nodes then process_next_batch else transition_to_finalize
    ]

  -- `switch talosUpgrade.Status.Phase`
  by_phase : JobPhase → M ⊤
  unfolding process_pre_hooks process_post_hooks process_run
  by_phase JobPhase.pre_hook = process_pre_hooks
  by_phase JobPhase.post_hook = process_post_hooks
  by_phase _ = process_run

  module _ (sync : Bool → M ⊤) where
    -- `return ctrl.Result{RequeueAfter: d}, err`
    abbrev requeue_with : ℕ → Option Error → M ⊤
    requeue_with d e = stop_with (record { requeue = d; error = e })

    -- The two resets at the start of processUpgrade.
    stop_after_reset : Result Bool → M ⊤
    stop_after_reset (err e) = requeue_with (30 * second) (some e)
    stop_after_reset (ok true) = requeue_with (30 * second) none
    stop_after_reset (ok false) = pure tt

    -- processUpgrade past the suspension.
    restart_or_run : M ⊤
    unfolding handle_reset_annotation handle_generation_change process_terminal stop_after_reset
        by_phase
    restart_or_run = do
      reset ← handle_reset_annotation env
      stop_after_reset reset
      restarted ← handle_generation_change env
      stop_after_reset restarted
      s ← status
      if is_terminal s.phase then process_terminal env else by_phase s.phase

    -- What follows handleSuspendAnnotation.
    after_suspension : Bool × Option Error → M ⊤
    unfolding restart_or_run
    after_suspension (suspended, failed) = do
      sync suspended
      if suspended || not (is_none failed)
          then requeue_with (30 * minute) failed
          else restart_or_run

    -- processUpgrade
    unfoldable pub process_upgrade : M ⊤
    unfolding handle_suspend_annotation after_suspension
    process_upgrade = do suspension ← handle_suspend_annotation env; after_suspension suspension
