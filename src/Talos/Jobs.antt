-- ===== src/Talos/Jobs.antt =====
-- The upgrade jobs of a run: findActiveJobs, handleBatchJobStatus, processTerminalJob and
-- jobRanOffTargetNode (internal/controller/talosupgrade/jobs.go).
use tuppr.Prelude.{
  ℕ, ◌*◌, String, Bool, true, false, not, ◌&&◌, ◌||◌, Option, none, some, List, [], ◌∷◌, str_eq,
  ◌⧺◌, length, filter, contains, contains_func, is_nil, map, if◌then◌else◌,
}
use tuppr.Api.Phase.{JobPhase}
use tuppr.Api.Cluster.{
  Job, Pod, OwnerRef, get_or_empty, is_empty, is_succeeded, is_failed_job, is_node_ready,
}
use tuppr.Api.Talos.{TalosUpgrade, TalosUpgradeStatus}
use tuppr.Maintenance.{second, minute}
use tuppr.Talos.Nodes.{get_node}
use tuppr.Talos.Outcome.{
  talos_app_name, target_node_label, complete_node_upgrade, process_single_job_failure,
}
use tuppr.Talos.Phase.{set_phase, set_phase_with_nodes, set_phase_with_updates}
use tuppr.Talos.Reboot.{node_upgrade_timeout, reboot_deadline_expired, track_rebooting_nodes}
use tuppr.Talos.Verify.{verify_node_upgrade}
use tuppr.Talos.World.{
  Env, M, ⊤, Result, ok, err, ErrorKind, wrap, pure, ask, status, upgrade, requeue, fail, stop_with,
  ◌>>=◌, ◌>>◌,
}

abbrev pub app_instance_label : String
app_instance_label = "app.kubernetes.io/instance"

abbrev pub is_completed_node : TalosUpgradeStatus → String → Bool
is_completed_node s name = contains s.completed_nodes name

abbrev pub is_failed_node : TalosUpgradeStatus → String → Bool
is_failed_node s name = contains_func (λ n. str_eq n.node_name name) s.failed_nodes

abbrev pub is_owned_by : TalosUpgrade → Option OwnerRef → Bool
is_owned_by u none = false
is_owned_by u (some o) = str_eq o.kind "TalosUpgrade" && str_eq o.name u.name && str_eq o.uid u.uid

abbrev pub target_of : Job → String
target_of job = get_or_empty target_node_label job.labels

-- Whether findActiveJobs keeps a job.
abbrev pub is_active_job : TalosUpgrade → Job → Bool
is_active_job u job =
    not (is_empty (target_of job))
    && (str_eq (get_or_empty app_instance_label job.labels) u.name || is_owned_by u job.controller)
    && not (is_completed_node u.status (target_of job))
    && not (is_failed_node u.status (target_of job))

abbrev pub is_running : Job → Bool
is_running job = not (is_succeeded job) && not (is_failed_job job)

-- jobResult
pub data JobResult : Type 0 where
  result_success result_rebooting : JobResult
  result_failed : String → JobResult

-- The pods of a job that have a node.
abbrev pub is_pod_of : Job → Pod → Bool
is_pod_of job pod = elim pod.controller [
  | none ↦ false
  | some o ↦
      str_eq o.kind "Job"
      && str_eq o.name job.name
      && str_eq o.uid job.uid
      && not (is_empty pod.node_name)
]

-- The loop of jobRanOffTargetNode.
abbrev pub ran_off_target : Job → String → List Pod → Bool → Bool
ran_off_target job target [] scheduled = scheduled
ran_off_target job target (pod ∷ pods) scheduled =
    let rest = ran_off_target job target pods scheduled in
    let seen = ran_off_target job target pods true in
    if not (is_pod_of job pod) then rest else (if str_eq pod.node_name target then false else seen)

-- The nodes that still reboot and those that failed, and the message of a node's last failure.
abbrev pub rebooting_of : List (String × JobResult) → List String
rebooting_of [] = []
rebooting_of ((name, JobResult.result_rebooting) ∷ results) = name ∷ rebooting_of results
rebooting_of (_ ∷ results) = rebooting_of results

abbrev pub failed_of : List (String × JobResult) → List String
failed_of [] = []
failed_of ((name, JobResult.result_failed message) ∷ results) = name ∷ failed_of results
failed_of (_ ∷ results) = failed_of results

abbrev last_message : String → String → List (String × JobResult) → String
last_message found name [] = found
last_message found name ((other, JobResult.result_failed message) ∷ results) =
    if str_eq other name then last_message message name results else last_message found name results
last_message found name (_ ∷ results) = last_message found name results

abbrev pub failure_message : String → List (String × JobResult) → String
failure_message name results = last_message "" name results

abbrev tally : Env → List Job → String
tally env jobs =
    env.decimal (length (filter is_succeeded jobs))
    ⧺ " succeeded, "
    ⧺ env.decimal (length (filter (λ j. not (is_succeeded j) && is_failed_job j) jobs))
    ⧺ " failed)"

abbrev pub timeout_message : Env → TalosUpgrade → String
timeout_message env u =
    "Node did not become ready within "
    ⧺ env.format_duration (node_upgrade_timeout u)
    ⧺ " after upgrade"

abbrev pub rebooting_message : Env → ℕ → String
rebooting_message env n = "Waiting for " ⧺ env.decimal n ⧺ " node(s) to finish rebooting"

module _ (env : Env) where
  -- findActiveJobs; the target of each job is its label.
  unfoldable pub find_active_jobs : M (Result (List Job))
  find_active_jobs = do
    u ← upgrade
    r ← ask (λ n. env.list_jobs n talos_app_name)
    elim r [ err e ↦ pure (err e) | ok jobs ↦ pure (ok (filter (is_active_job u) jobs)) ]

  -- jobRanOffTargetNode
  unfoldable pub job_ran_off_target_node : Job → String → M (Result Bool)
  job_ran_off_target_node job target = do
    r ← ask env.list_pods
    elim r [
      | err e ↦ pure (err (wrap ("list pods for job " ⧺ job.name) e))
      | ok pods ↦ pure (ok (ran_off_target job target pods false))
    ]

  -- The branch of processTerminalJob where the verification failed.
  unverified : Job → String → Bool → ErrorKind → M (Result JobResult)
  unfolding job_ran_off_target_node
  unverified job name job_failed (ErrorKind.version_mismatch current target) =
      if not job_failed then pure (ok JobResult.result_rebooting) else do
        r ← job_ran_off_target_node job name
        elim r [
          | err e ↦ pure (err e)
          | ok off ↦
              if off
              then pure (
                  ok (
                    JobResult.result_failed (
                      "Upgrade Job failed while node remained at " ⧺ current ⧺ "; expected "
                      ⧺ target)))
              else pure (ok JobResult.result_rebooting)
        ]
  unverified job name job_failed _ = pure (ok JobResult.result_rebooting)

  -- processTerminalJob
  unfoldable pub process_terminal_job : Job → String → Bool → M (Result JobResult)
  unfolding unverified verify_node_upgrade complete_node_upgrade
  process_terminal_job job name job_failed = do
    r ← verify_node_upgrade env name
    elim r [
      | err e ↦ unverified job name job_failed e.kind
      | ok ready ↦ if not ready then pure (ok JobResult.result_rebooting) else do
        failure ← complete_node_upgrade env name
        elim failure [ some e ↦ pure (err e) | none ↦ pure (ok JobResult.result_success) ]
    ]

  -- Whether one of the nodes is not Ready; a node that cannot be read does not count.
  any_rebooting : List String → M Bool
  unfolding is_node_ready
  any_rebooting [] = pure false
  any_rebooting (name ∷ names) = do
    r ← get_node env name
    elim r [
      | err e ↦ any_rebooting names
      | ok node ↦ if is_node_ready node then any_rebooting names else pure true
    ]

  -- The branch of handleBatchJobStatus where jobs still run.
  wait_for_jobs : List Job → List String → M ⊤
  unfolding any_rebooting set_phase_with_updates
  wait_for_jobs jobs running = do
    rebooting ← any_rebooting running
    failure ←
        (if rebooting
          then set_phase_with_nodes env JobPhase.rebooting (map target_of jobs)
              ("Nodes rebooting (" ⧺ env.decimal (length running) ⧺ " running, " ⧺ tally env jobs)
          else set_phase_with_nodes env JobPhase.upgrading (map target_of jobs) (
              "Upgrading "
              ⧺ env.decimal (length jobs)
              ⧺ " nodes ("
              ⧺ env.decimal (length running)
              ⧺ " running, "
              ⧺ tally env jobs))
    elim failure [
      | some e ↦ fail (wrap "update phase for active batch" e)
      | none ↦ requeue (30 * second)
    ]

  -- The verification of each terminal job, up to the first error.
  process_terminal_jobs : List Job → M (List (String × JobResult))
  unfolding process_terminal_job
  process_terminal_jobs [] = pure []
  process_terminal_jobs (job ∷ jobs) = do
    r ← process_terminal_job job (target_of job) (is_failed_job job)
    elim r [
      | err e ↦ fail (wrap ("process terminal job " ⧺ job.name ⧺ " for node " ⧺ target_of job) e)
      | ok result ↦ do rest ← process_terminal_jobs jobs; pure ((target_of job, result) ∷ rest)
    ]

  -- The nodes past their deadline are failed, the others are returned.
  expire_rebooting : List String → M (List String)
  unfolding reboot_deadline_expired process_single_job_failure
  expire_rebooting [] = pure []
  expire_rebooting (name ∷ names) = do
    expired ← reboot_deadline_expired env name
    if not expired then (do rest ← expire_rebooting names; pure (name ∷ rest)) else (do
      u ← upgrade
      failure ← process_single_job_failure env name (timeout_message env u)
      elim failure [
        | some e ↦ stop_with (record { requeue = minute; error = some e })
        | none ↦ expire_rebooting names
      ])

  -- The branch of handleBatchJobStatus where nodes still reboot.
  wait_for_reboots : List String → List String → M ⊤
  unfolding track_rebooting_nodes expire_rebooting set_phase_with_updates
  wait_for_reboots active rebooting = do
    track_rebooting_nodes env rebooting
    waiting ← expire_rebooting rebooting
    if is_nil waiting then requeue (5 * second) else do
      set_phase_with_nodes env JobPhase.rebooting active (rebooting_message env (length waiting))
      requeue (30 * second)

  fail_nodes : List (String × JobResult) → List String → M ⊤
  unfolding process_single_job_failure
  fail_nodes results [] = pure tt
  fail_nodes results (name ∷ names) = do
    failure ← process_single_job_failure env name (failure_message name results)
    elim failure [
      | some e ↦ stop_with (record { requeue = minute; error = some e })
      | none ↦ fail_nodes results names
    ]

  -- The end of handleBatchJobStatus, where no node reboots.
  finish_batch : List (String × JobResult) → M ⊤
  unfolding fail_nodes set_phase_with_updates
  finish_batch results = do
    fail_nodes results (failed_of results)
    if not (is_nil (failed_of results))
        then (do
          failure ← set_phase env JobPhase.failed (
              "Batch upgrade stopped: "
              ⧺ env.decimal (length (failed_of results))
              ⧺ " nodes failed - stopping")
          elim failure [
            | some e ↦ fail (wrap "update phase for batch failure" e)
            | none ↦ requeue (10 * minute)
          ])
        else (do
          s ← status
          failure ← set_phase env JobPhase.pending (
              "Batch completed successfully ("
              ⧺ env.decimal (length s.completed_nodes)
              ⧺ " total completed)")
          elim failure [
            | some e ↦ fail (wrap "update phase after batch completion" e)
            | none ↦ requeue (5 * second)
          ])

  -- handleBatchJobStatus
  unfoldable pub handle_batch_job_status : List Job → M ⊤
  unfolding wait_for_jobs process_terminal_jobs wait_for_reboots finish_batch
  handle_batch_job_status jobs =
      if not (is_nil (filter is_running jobs))
      then wait_for_jobs jobs (map target_of (filter is_running jobs))
      else (do
        results ← process_terminal_jobs jobs
        if not (is_nil (rebooting_of results))
            then wait_for_reboots (map target_of jobs) (rebooting_of results)
            else finish_batch results)
