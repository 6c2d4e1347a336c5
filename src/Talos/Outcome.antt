-- ===== src/Talos/Outcome.antt =====
-- What is done once the outcome of a node is known: completeNodeUpgrade and processSingleJobFailure
-- with their steps (internal/controller/talosupgrade/jobs.go), isSelfHostedUpgrade (upgrade.go) and
-- jobs.DeleteJob (internal/controller/jobs/jobs.go).
pub mod Aside
pub mod Durable
use tuppr.Prelude.{
  String, Bool, true, false, not, ◌&&◌, ◌||◌, Option, none, some, List, [], ◌∷◌, str_eq, ◌⧺◌, ◌==◌,
  length, if◌then◌else◌,
}
use tuppr.Api.Cluster.{Job, Node, get_or_empty, is_terminal_job}
use tuppr.Api.Talos.{TalosUpgradeSpec, drain_enabled}
use tuppr.NodeUtil.{get_node_ip}
use tuppr.Talos.Image.{build_talos_upgrade_image}
use tuppr.Talos.Nodes.{get_node, remove_node_upgrading_label}
use tuppr.Talos.Reboot.{add_completed_node, add_failed_node, clear_reboot_tracking}
use tuppr.Talos.World.{
  Env, M, ⊤, Result, ok, err, Error, Effect, wrap, wrap_option, plain_error, is_not_found, pure,
  ask, write, upgrade, ◌>>=◌, ◌>>◌,
}

abbrev pub talos_app_name : String
talos_app_name = "talos-upgrade"

abbrev pub target_node_label : String
target_node_label = "tuppr.home-operations.com/target-node"

module _ (env : Env) where
  -- isSelfHostedUpgrade, with getTotalNodeCount
  unfoldable pub is_self_hosted_upgrade : M Bool
  is_self_hosted_upgrade = do
    r ← ask (λ n. env.list_nodes n none)
    elim r [ err e ↦ pure false | ok nodes ↦ pure (length nodes == 1) ]

  -- syncNodeInstallImage
  unfoldable pub sync_node_install_image : String → M (Option Error)
  unfolding build_talos_upgrade_image get_node_ip
  sync_node_install_image name = do
    r ← get_node env name
    elim r [
      | err e ↦ pure (some (wrap ("failed to get node " ⧺ name) e))
      | ok node ↦ elim (get_node_ip node) [
        | none ↦ pure (some (plain_error ("failed to get node IP for " ⧺ name)))
        | some ip ↦ do
          i ← build_talos_upgrade_image env name
          elim i [
            | err e ↦ pure (some (wrap ("failed to build target image for " ⧺ name) e))
            | ok image ↦ write env (Effect.patch_install_image ip image)
          ]
      ]
    ]

  -- ensureNodeUncordoned past the test of who owns the cordon.
  uncordon : String → M ⊤
  uncordon name = do
    r ← get_node env name
    elim r [
      | err e ↦ pure tt
      | ok node ↦
          if not node.unschedulable
          then pure tt
          else do write env (Effect.set_unschedulable name false); pure tt
    ]

  -- ensureNodeUncordoned
  unfoldable pub ensure_node_uncordoned : String → M ⊤
  unfolding uncordon is_self_hosted_upgrade
  ensure_node_uncordoned name = do
    u ← upgrade
    if drain_enabled u.spec || u.spec.policy.wait_for_volume_detach
        then uncordon name
        else do alone ← is_self_hosted_upgrade; if alone then uncordon name else pure tt

  -- jobs.DeleteJob, which takes a job that is gone for deleted.
  unfoldable pub delete_job : Job → M (Option Error)
  delete_job job = do
    failed ← write env (Effect.delete_job job.name)
    elim failed [ none ↦ pure none | some e ↦ if is_not_found e then pure none else pure (some e) ]

  -- The loop of cleanupJobForNode.
  delete_terminal_jobs : List Job → M (Option Error)
  unfolding delete_job is_terminal_job
  delete_terminal_jobs [] = pure none
  delete_terminal_jobs (job ∷ jobs) =
      if not (is_terminal_job job) then delete_terminal_jobs jobs else do
        failed ← delete_job job
        elim failed [ some e ↦ pure (some e) | none ↦ delete_terminal_jobs jobs ]

  -- `client.MatchingLabels` on the target node.
  jobs_of_node : String → List Job → List Job
  jobs_of_node name [] = []
  jobs_of_node name (job ∷ jobs) =
      let rest = jobs_of_node name jobs in
      if str_eq (get_or_empty target_node_label job.labels) name then job ∷ rest else rest

  -- cleanupJobForNode
  unfoldable pub cleanup_job_for_node : String → M (Option Error)
  unfolding delete_terminal_jobs jobs_of_node
  cleanup_job_for_node name = do
    r ← ask (λ n. env.list_jobs n talos_app_name)
    elim r [
      | err e ↦ pure (some (wrap ("failed to list jobs for node " ⧺ name) e))
      | ok jobs ↦ delete_terminal_jobs (jobs_of_node name jobs)
    ]

  -- completeNodeUpgrade
  unfoldable pub complete_node_upgrade : String → M (Option Error)
  unfolding sync_node_install_image ensure_node_uncordoned cleanup_job_for_node
      remove_node_upgrading_label add_completed_node clear_reboot_tracking
  complete_node_upgrade name = do
    sync_node_install_image name
    ensure_node_uncordoned name
    cleanup_job_for_node name
    remove_node_upgrading_label env name
    failed ← add_completed_node env name
    elim failed [
      | some e ↦ pure (some (wrap ("add completed node " ⧺ name) e))
      | none ↦ do clear_reboot_tracking env name; pure none
    ]

  -- processSingleJobFailure
  unfoldable pub process_single_job_failure : String → String → M (Option Error)
  unfolding cleanup_job_for_node remove_node_upgrading_label add_failed_node clear_reboot_tracking
  process_single_job_failure name last_error = do
    remove_node_upgrading_label env name
    failed ← add_failed_node env (record { node_name = name; last_error = last_error })
    elim failed [
      | some e ↦ pure (some (wrap ("add failed node " ⧺ name) e))
      | none ↦ do clear_reboot_tracking env name; cleanup_job_for_node name; pure none
    ]
