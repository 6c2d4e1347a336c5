-- ===== src/Kubernetes/Process.antt =====
-- One pass over a KubernetesUpgrade (internal/controller/kubernetesupgrade/upgrade.go).
use tuppr.Prelude.{
  ℕ, ◌+◌, ◌-◌, ◌*◌, String, Bool, true, false, not, ◌&&◌, Option, none, some, [], ◌∷◌, leb, str_eq,
  ◌⧺◌, is_none, if◌then◌else◌,
}
use tuppr.Prelude.Text.{has_prefix}
use tuppr.Api.Phase.{JobPhase, is_active, is_terminal, is_failed}
use tuppr.Api.Cluster.{Job}
use tuppr.Api.Talos.{Time}
use tuppr.Audit.{max_completion_cycles}
use tuppr.Coordination.{Verdict, UpgradeType, is_another_upgrade_active}
use tuppr.Maintenance.{WindowResult, Checked, check_window, requeue_after, second, minute, hour}
use tuppr.Talos.Annotations.{reset_annotation}
use tuppr.Talos.Health.{retry_after}
use tuppr.Talos.Process.{next_start}
use tuppr.Talos.World.{Result, ok, err, Error, ⊤, HealthError, plain_error}
use tuppr.Kubernetes.Annotations.{
  handle_suspend_annotation, handle_reset_annotation, handle_generation_change,
}
use tuppr.Kubernetes.Jobs.{find_active_job, create_job, requeue_after_write, handle_job_status}
use tuppr.Kubernetes.Nodes.{find_controller_node, are_all_nodes_upgraded}
use tuppr.Kubernetes.Phase.{
  set_phase, set_pending_with_reason, set_phase_with_updates, report_reconcile_error,
}
use tuppr.Kubernetes.Status.{Update}
use tuppr.Kubernetes.World.{
  Env, M, UpgradeJob, pure, ask, status, upgrade, modify_status, update_status, requeue, fail,
  stop_with, never_return, ◌>>=◌, ◌>>◌,
}

-- `if !strings.HasPrefix(v, "v") { v = "v" + v }`
abbrev pub with_v : String → String
with_v version = if has_prefix version "v" then version else "v" ⧺ version

module _ (env : Env) where
  -- checkMaintenanceWindow where the window is closed.
  unfoldable pub await_window : WindowResult → M ⊤
  unfolding requeue_after set_phase_with_updates
  await_window r = do
    now ← ask env.now
    set_phase_with_updates env JobPhase.maintenance_window "" ""
        ("Waiting for maintenance window (next: " ⧺ env.format_time (next_start r) ⧺ ")")
        (Update.next_maintenance_window (next_start r) ∷ [])
    requeue (requeue_after r now)

  -- checkMaintenanceWindow on what CheckWindow returns.
  unfoldable pub follow_window : Checked → M ⊤
  unfolding await_window
  follow_window Checked.bad_window =
      stop_with (record { requeue = 30 * second; error = some (plain_error "bad window") })
  follow_window Checked.no_answer = never_return
  follow_window (Checked.result r) = if r.allowed then pure tt else await_window r

  -- checkMaintenanceWindow
  unfoldable pub check_maintenance_window : M ⊤
  unfolding check_window follow_window
  check_maintenance_window = do
    u ← upgrade
    now ← ask env.now
    follow_window (check_window env.calendar u.spec.maintenance now)

  -- checkCoordination on the verdict.
  unfoldable pub follow_verdict : Verdict → M ⊤
  unfolding report_reconcile_error set_phase_with_updates
  follow_verdict Verdict.list_failed =
      report_reconcile_error env "CheckCoordination" "check for other active upgrades" minute
        (plain_error "list failed")
  follow_verdict (Verdict.blocked message) = do
    set_pending_with_reason env "WaitingForOtherUpgrade" message
    requeue (2 * minute)
  follow_verdict Verdict.free = pure tt

  -- checkCoordination, which lists the TalosUpgrades only.
  unfoldable pub check_coordination : M ⊤
  unfolding is_another_upgrade_active follow_verdict
  check_coordination = do
    u ← upgrade
    plans ← ask env.list_talos_plans
    follow_verdict (is_another_upgrade_active none plans u.name UpgradeType.kubernetes)

  -- `kubernetesUpgrade.Status.HealthChecksFailingSince = …` where the status write went through.
  unfoldable pub note_failing_since : Option Error → Option Time → M ⊤
  note_failing_since (some e) since = pure tt
  note_failing_since none since =
      modify_status (λ s. record s { health_checks_failing_since = since })

  -- waitForHealthChecks on the outcome of the checks.
  unfoldable pub follow_health : Time → Option Time → Option HealthError → M ⊤
  unfolding set_phase_with_updates note_failing_since retry_after
  follow_health now since (some e) = do
    let began : Time = elim since [ none ↦ now | some t ↦ t ]
    r ←
        set_phase_with_updates env JobPhase.health_checking "" ""
          ("Waiting for health checks: " ⧺ e.reason)
          (if is_none since then Update.health_checks_failing_since (some began) ∷ [] else [])
    note_failing_since r (some began)
    requeue (retry_after (now - began))
  follow_health now since none = do
    r ←
        set_phase_with_updates env JobPhase.health_checking "" "" "Running health checks"
          (if is_none since then [] else Update.health_checks_failing_since none ∷ [])
    note_failing_since r none

  -- waitForHealthChecks
  unfoldable pub wait_for_health_checks : M ⊤
  unfolding follow_health
  wait_for_health_checks = do
    now ← ask env.now
    u ← upgrade
    failed ← ask (λ n. env.check_health n u.spec.health_checks)
    follow_health now u.status.health_checks_failing_since failed

  -- startUpgrade where a step failed: the run is marked Failed, and a failed write is only logged.
  unfoldable pub give_up : String → String → ℕ → M ⊤
  unfolding set_phase_with_updates
  give_up node message after = do set_phase env JobPhase.failed node message; requeue after

  -- startUpgrade past createJob.
  unfoldable pub announce_job : String → Result UpgradeJob → M ⊤
  unfolding give_up set_phase_with_updates requeue_after_write
  announce_job node (err e) = give_up node ("Failed to create job: " ⧺ e.text) minute
  announce_job node (ok job) = do
    u ← upgrade
    failed ←
        set_phase_with_updates env JobPhase.upgrading "" node
          ("Upgrading Kubernetes to " ⧺ u.spec.kubernetes.version ⧺ " on controller node " ⧺ node)
          (Update.job_name job.name ∷ [])
    requeue_after_write env ("set Upgrading phase for job " ⧺ job.name) (30 * second) failed

  -- startUpgrade past findControllerNode.
  unfoldable pub start_on : Result (String × String) → M ⊤
  unfolding give_up create_job announce_job
  start_on (err e) = give_up "" ("Failed to find controller node: " ⧺ e.text) (5 * minute)
  start_on (ok (node, ip)) = do r ← create_job env node ip; announce_job node r

  -- startUpgrade
  unfoldable pub start_upgrade : M ⊤
  unfolding find_controller_node start_on
  start_upgrade = do u ← upgrade; r ← find_controller_node env u.spec.kubernetes.version; start_on r

  -- A completed run that finds a lagging node: one more cycle, up to the limit.
  unfoldable pub next_cycle : M ⊤
  unfolding set_phase_with_updates requeue_after_write
  next_cycle = do
    u ← upgrade
    let cycles = u.status.completion_cycles
    if leb max_completion_cycles cycles
        then (do
          failed ← set_phase env JobPhase.failed "" (
              "Some nodes never converged to "
              ⧺ u.spec.kubernetes.version
              ⧺ " after "
              ⧺ env.decimal cycles
              ⧺ " completion cycles; add the "
              ⧺ reset_annotation
              ⧺ " annotation or bump the spec to retry")
          requeue_after_write env "set Failed phase after exhausting completion cycles" hour failed)
        else (do
          failed ←
              set_phase_with_updates env JobPhase.pending "" ""
                "Node lagging target version, restarting upgrade"
                (Update.completion_cycles (cycles + 1) ∷ [])
          (if is_none failed
              then modify_status (λ s. record s { completion_cycles = cycles + 1 })
              else pure tt)
          requeue_after_write env "re-enter Pending after completion" (5 * second) failed)

  -- The branch of processUpgrade for a completed run.
  unfoldable pub process_completed : M ⊤
  unfolding are_all_nodes_upgraded next_cycle report_reconcile_error
  process_completed = do
    u ← upgrade
    r ← are_all_nodes_upgraded env u.spec.kubernetes.version
    elim r [
      | err e ↦
          report_reconcile_error env "CheckNodeVersions" "re-check node versions" (5 * minute) e
      | ok upgraded ↦ if upgraded then requeue hour else next_cycle
    ]

  -- The branch of processUpgrade for a run that is over.
  unfoldable pub process_terminal : M ⊤
  unfolding process_completed
  process_terminal = do
    s ← status
    if is_failed s.phase then requeue (5 * minute) else process_completed

  -- The version status of processUpgrade, whose failed write is only logged; the current version,
  -- which is empty where it could not be read.
  unfoldable pub record_versions : M String
  record_versions = do
    u ← upgrade
    r ← ask env.server_version
    elim r [
      | err e ↦ pure ""
      | ok current ↦
          if str_eq u.status.current_version current
            && str_eq u.status.target_version u.spec.kubernetes.version
          then pure current
          else (do
            update_status env (
                Update.current_version current
                ∷ Update.target_version u.spec.kubernetes.version
                ∷ [])
            pure current)
    ]

  -- processUpgrade where every node is at the target.
  unfoldable pub finish : String → String → M ⊤
  unfolding set_phase_with_updates requeue_after_write
  finish target current = if not (str_eq (with_v current) target) then requeue (30 * second) else do
    failed ←
        set_phase_with_updates env JobPhase.completed "" ""
          ("Kubernetes successfully upgraded to " ⧺ target)
          (Update.current_version target ∷ Update.target_version target ∷ [])
    requeue_after_write env "set Completed phase" hour failed

  -- processUpgrade where a node lags: the gates, and the start.
  unfoldable pub gate_and_start : M ⊤
  unfolding wait_for_health_checks check_maintenance_window start_upgrade
  gate_and_start = do wait_for_health_checks; check_maintenance_window; start_upgrade

  -- processUpgrade without an active job.
  unfoldable pub process_nodes : M ⊤
  unfolding record_versions are_all_nodes_upgraded finish gate_and_start report_reconcile_error
  process_nodes = do
    current ← record_versions
    u ← upgrade
    r ← are_all_nodes_upgraded env u.spec.kubernetes.version
    elim r [
      | err e ↦ report_reconcile_error env "CheckNodeVersions" "check node versions" minute e
      | ok upgraded ↦ if upgraded then finish u.spec.kubernetes.version current else gate_and_start
    ]

  -- processUpgrade on the active job, if there is one.
  unfoldable pub follow_job : Result (Option Job) → M ⊤
  unfolding handle_job_status process_nodes report_reconcile_error
  follow_job (err e) =
      report_reconcile_error env "FindActiveJobs" "list active upgrade jobs" minute e
  follow_job (ok none) = process_nodes
  follow_job (ok (some job)) = handle_job_status env job

  -- The gates of a run that is not active.
  unfoldable pub enter_run : JobPhase → M ⊤
  unfolding check_maintenance_window check_coordination
  enter_run phase =
      if is_active phase then pure tt else do check_maintenance_window; check_coordination

  -- processUpgrade for a run that is not over.
  unfoldable pub process_run : M ⊤
  unfolding enter_run find_active_job follow_job
  process_run = do s ← status; enter_run s.phase; r ← find_active_job env; follow_job r

  -- `if err != nil { return ctrl.Result{}, err }; if done { return … }`
  unfoldable pub stop_if : ℕ → Result Bool → M ⊤
  stop_if after (err e) = fail e
  stop_if after (ok true) = requeue after
  stop_if after (ok false) = pure tt

  -- processUpgrade past the annotations.
  unfoldable pub dispatch : M ⊤
  unfolding process_terminal process_run
  dispatch = do s ← status; if is_terminal s.phase then process_terminal else process_run

  -- processUpgrade
  unfoldable pub process_upgrade : M ⊤
  unfolding handle_suspend_annotation handle_reset_annotation handle_generation_change stop_if
      dispatch
  process_upgrade = do
    suspended ← handle_suspend_annotation env
    stop_if (30 * minute) suspended
    reset ← handle_reset_annotation env
    stop_if (30 * second) reset
    restarted ← handle_generation_change env
    stop_if (30 * second) restarted
    dispatch
