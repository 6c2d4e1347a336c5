-- ===== src/Kubernetes/Jobs.antt =====
-- The upgrade job of a KubernetesUpgrade (internal/controller/kubernetesupgrade/jobs.go), with
-- FindActiveJobByLabel and DeleteJob (internal/controller/jobs/jobs.go).
use tuppr.Prelude.{
  ℕ, ◌*◌, String, not, Option, none, some, List, [], ◌∷◌, ◌++◌, ◌⧺◌, map, if◌then◌else◌,
}
use Prim.Native.String
use tuppr.Prelude.Text.{trim_right}
use tuppr.Api.Phase.{JobPhase}
use tuppr.Api.Cluster.{Job, is_empty, is_succeeded, is_terminal_job}
use tuppr.Api.Kubernetes.{KubernetesUpgradeSpec}
use tuppr.Maintenance.{second, minute, hour}
use tuppr.Talos.Health.{}
use tuppr.Talos.Jobs.{app_instance_label, target_of}
use tuppr.Talos.Outcome.{target_node_label}
use tuppr.Talos.World.{Result, ok, err, Error, ⊤, wrap, plain_error, is_not_found}
use tuppr.Kubernetes.Nodes.{are_all_control_plane_nodes_upgraded}
use tuppr.Kubernetes.Phase.{set_phase_with_updates}
use tuppr.Kubernetes.Status.{Update}
use tuppr.Kubernetes.World.{
  Env, M, UpgradeJob, Effect, pure, ask, status, upgrade, write, requeue, fail, ◌>>=◌, ◌>>◌,
}

abbrev pub app_label : String
app_label = "app.kubernetes.io/name"

abbrev pub app_part_of_label : String
app_part_of_label = "app.kubernetes.io/part-of"

abbrev pub kubernetes_app_name : String
kubernetes_app_name = "kubernetes-upgrade"

abbrev pub upgrade_k8s_command : String
upgrade_k8s_command = "upgrade-k8s"

abbrev pub default_talosctl_image : String
default_talosctl_image = "ghcr.io/siderolabs/talosctl"

abbrev pub default_kubernetes_api_endpoint : String
default_kubernetes_api_endpoint = "https://kubernetes.default.svc.cluster.local:443"

-- `if a != "" { return a }; return b`
abbrev pub or_else : String → String → String
or_else a b = if is_empty a then b else a

-- componentImageArgs. A repository ends in at most as many slashes as it has bytes.
abbrev pub component_image_args : String → List String
component_image_args repository =
    let repo = trim_right (String.len repository) repository "/" in
    if is_empty repo
    then []
    else ("--apiserver-image=" ⧺ repo ⧺ "/kube-apiserver")
      ∷ ("--controller-manager-image=" ⧺ repo ⧺ "/kube-controller-manager")
      ∷ ("--scheduler-image=" ⧺ repo ⧺ "/kube-scheduler")
      ∷ ("--proxy-image=" ⧺ repo ⧺ "/kube-proxy")
      ∷ ("--kubelet-image=" ⧺ repo ⧺ "/kubelet")
      ∷ []

-- The arguments of the job's container.
abbrev pub upgrade_args : KubernetesUpgradeSpec → String → String → List String
upgrade_args spec default_endpoint ip =
    let endpoint =
      or_else spec.kubernetes.endpoint (or_else default_endpoint default_kubernetes_api_endpoint) in
    (upgrade_k8s_command
      ∷ ("--endpoints=" ⧺ ip)
      ∷ ("--nodes=" ⧺ ip)
      ∷ ("--to=" ⧺ spec.kubernetes.version)
      ∷ ("--endpoint=" ⧺ endpoint)
      ∷ [])
    ++ component_image_args spec.kubernetes.image_repository

-- The job that buildJob returns.
abbrev pub upgrade_job :
    String → String → KubernetesUpgradeSpec → String → String → String → String → UpgradeJob
upgrade_job name plan spec default_endpoint tag node ip = record {
  name = name;
  labels =
      (app_label, kubernetes_app_name)
      ∷ (app_instance_label, plan)
      ∷ (app_part_of_label, "tuppr")
      ∷ (target_node_label, node)
      ∷ [];
  container_name = upgrade_k8s_command;
  image = or_else spec.talosctl.repository default_talosctl_image ⧺ ":" ⧺ tag;
  pull_policy = or_else spec.talosctl.pull_policy "IfNotPresent";
  args = upgrade_args spec default_endpoint ip;
  backoff_limit = 5;
  completions = 1;
  ttl_seconds_after_finished = 300;
  parallelism = 1;
  active_deadline_seconds = 3600;
  grace_period = 300;
}

-- `%v` of names, between its brackets.
abbrev pub spaced : List String → String
spaced [] = ""
spaced (name ∷ []) = name
spaced (name ∷ names) = name ⧺ " " ⧺ spaced names

-- The label and the namespace, as the errors of jobs.go show them.
abbrev pub job_scope : String → String
job_scope namespace = "app.kubernetes.io/name=" ⧺ kubernetes_app_name ⧺ " in " ⧺ namespace

-- The one job of a list, if there is one: FindActiveJobByLabel past the list.
abbrev pub only_job : String → List Job → Result (Option Job)
only_job namespace [] = ok none
only_job namespace (job ∷ []) = ok (some job)
only_job namespace jobs = err (
    plain_error (
      "multiple jobs match " ⧺ job_scope namespace ⧺ ": [" ⧺ spaced (map (λ j. j.name) jobs) ⧺ "]"))

module _ (env : Env) where
  -- findActiveJob
  unfoldable pub find_active_job : M (Result (Option Job))
  find_active_job = do
    r ← ask env.list_jobs
    elim r [
      | err e ↦ pure (err (wrap ("list jobs with " ⧺ job_scope env.controller_namespace) e))
      | ok jobs ↦ pure (only_job env.controller_namespace jobs)
    ]

  -- The tag of the talosctl image.
  unfoldable pub talosctl_tag : String → String → String → M (Result String)
  talosctl_tag tag node ip = if not (is_empty tag) then pure (ok tag) else do
    r ← ask (λ n. env.get_node_version n ip)
    let message = "failed to detect talosctl version for node " ⧺ node
    elim r [
      | err e ↦ pure (err (wrap message e))
      | ok version ↦
          if is_empty version
          then pure (err (plain_error (message ⧺ ": %!w(<nil>)")))
          else pure (ok version)
    ]

  -- buildJob
  unfoldable pub build_job : String → String → M (Result UpgradeJob)
  unfolding talosctl_tag
  build_job node ip = do
    u ← upgrade
    name ← ask (λ n. env.safe_job_name n u.name node)
    tag ← talosctl_tag u.spec.talosctl.tag node ip
    elim tag [
      | err e ↦ pure (err e)
      | ok tag ↦ pure (ok (upgrade_job name u.name u.spec env.default_endpoint tag node ip))
    ]

  -- createJob past buildJob.
  unfoldable pub submit : UpgradeJob → M (Result UpgradeJob)
  submit job = do
    unset ← ask env.set_controller_reference
    elim unset [
      | some e ↦ pure (err (wrap "failed to set controller reference" e))
      | none ↦ do
        failed ← write env (Effect.create_job job)
        elim failed [ some e ↦ pure (err (wrap "failed to create job" e)) | none ↦ pure (ok job) ]
    ]

  -- createJob
  unfoldable pub create_job : String → String → M (Result UpgradeJob)
  unfolding build_job submit
  create_job node ip = do
    r ← build_job node ip
    elim r [ err e ↦ pure (err (wrap "failed to build job" e)) | ok job ↦ submit job ]

  -- cleanupJob, whose callers only log its error.
  unfoldable pub cleanup_job : Job → M (Option Error)
  cleanup_job job = do
    failed ← write env (Effect.delete_job job.name)
    elim failed [ none ↦ pure none | some e ↦ if is_not_found e then pure none else pure (some e) ]

  -- What handleJobStatus and its branches do with a failed status write, and otherwise.
  unfoldable pub requeue_after_write : String → ℕ → Option Error → M ⊤
  requeue_after_write message after (some e) = fail (wrap message e)
  requeue_after_write message after none = requeue after

  -- The branch of handleJobSuccess that completes.
  unfoldable pub complete_upgrade : String → M ⊤
  unfolding set_phase_with_updates requeue_after_write
  complete_upgrade target = do
    failed ←
        set_phase_with_updates env JobPhase.completed "" ""
          ("Cluster successfully upgraded to " ⧺ target)
          (Update.current_version target ∷ Update.target_version target ∷ [])
    requeue_after_write "set Completed phase" hour failed

  -- The branch of handleJobSuccess that goes on to the next node.
  unfoldable pub continue_upgrade : String → Job → M ⊤
  unfolding set_phase_with_updates requeue_after_write cleanup_job
  continue_upgrade target job = do
    cleanup_job job
    failed ←
        set_phase_with_updates env JobPhase.upgrading "" ""
          ("Upgrading Kubernetes to " ⧺ target ⧺ ", continuing to next node")
          (Update.job_name "" ∷ [])
    requeue_after_write ("set Upgrading phase after node " ⧺ target_of job) (10 * second) failed

  -- handleJobSuccess
  unfoldable pub handle_job_success : Job → M ⊤
  unfolding are_all_control_plane_nodes_upgraded complete_upgrade continue_upgrade
  handle_job_success job = do
    u ← upgrade
    let target = u.spec.kubernetes.version
    r ← are_all_control_plane_nodes_upgraded env target
    elim r [
      | err e ↦ requeue (30 * second)
      | ok upgraded ↦ if upgraded then complete_upgrade target else continue_upgrade target job
    ]

  -- handleJobFailure past the status write.
  unfoldable pub after_failure : Job → Option Error → M ⊤
  unfolding cleanup_job
  after_failure job (some e) = fail (wrap ("set Failed phase for job " ⧺ job.name) e)
  after_failure job none = do cleanup_job job; requeue (10 * minute)

  -- handleJobFailure
  unfoldable pub handle_job_failure : Job → M ⊤
  unfolding set_phase_with_updates after_failure
  handle_job_failure job = do
    s ← status
    failed ←
        set_phase_with_updates env JobPhase.failed "" s.controller_node
          "Kubernetes upgrade job failed permanently"
          (Update.last_error "Job failed permanently" ∷ Update.job_name job.name ∷ [])
    after_failure job failed

  -- The branch of handleJobStatus for a job that runs.
  unfoldable pub await_job : Job → M ⊤
  unfolding set_phase_with_updates requeue_after_write
  await_job job = do
    u ← upgrade
    failed ←
        set_phase_with_updates env JobPhase.upgrading "" u.status.controller_node
          ("Upgrading Kubernetes to " ⧺ u.spec.kubernetes.version ⧺ " (job: " ⧺ job.name ⧺ ")")
          (Update.job_name job.name ∷ [])
    requeue_after_write ("set Upgrading phase for active job " ⧺ job.name) (30 * second) failed

  -- handleJobStatus
  unfoldable pub handle_job_status : Job → M ⊤
  unfolding await_job handle_job_success handle_job_failure is_terminal_job is_succeeded
  handle_job_status job =
      if not (is_terminal_job job)
      then await_job job
      else (if is_succeeded job then handle_job_success job else handle_job_failure job)
