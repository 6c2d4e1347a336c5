-- ===== src/Talos/Outcome/Aside.antt =====
-- The steps of an outcome that stand aside of the status.
use tuppr.Prelude.{String, false, some, List, [], ◌∷◌, ◌⧺◌}
use tuppr.Api.Cluster.{Job}
use tuppr.Talos.World.{Env, Effect, wrap}
use tuppr.Talos.World.Keeps.{Keeps}
use tuppr.Talos.World.Aside.{
  IsAside, IsAside-pure, IsAside-ask, IsAside-gets, IsAside-if, IsAside-bind, IsAside-result,
  IsAside-option, IsAside-write,
}
use tuppr.Talos.Image.Reads.{build_talos_upgrade_image-IsAside}
use tuppr.Talos.Nodes.{remove_node_upgrading_label}
use tuppr.Talos.Outcome.{
  is_self_hosted_upgrade, sync_node_install_image, uncordon, ensure_node_uncordoned, delete_job,
  jobs_of_node, delete_terminal_jobs, cleanup_job_for_node,
}

module _ (env : Env) where
  pub remove_node_upgrading_label-IsAside :
      (name : String) → Keeps IsAside (remove_node_upgrading_label env name)
  unfolding remove_node_upgrading_label
  remove_node_upgrading_label-IsAside name = IsAside-bind (IsAside-ask _) (
      IsAside-result (λ e. IsAside-if _ (IsAside-pure _) (IsAside-pure _))
        (λ node.
          IsAside-if _ (IsAside-pure _) (
            IsAside-bind (IsAside-write env (Effect.remove_label name))
              (λ failed. IsAside-pure _))))

  pub sync_node_install_image-IsAside :
      (name : String) → Keeps IsAside (sync_node_install_image env name)
  unfolding sync_node_install_image
  sync_node_install_image-IsAside name = IsAside-bind (IsAside-ask _) (
      IsAside-result (λ e. IsAside-pure _)
        (λ node.
          IsAside-option (IsAside-pure _)
            (λ ip. IsAside-bind (build_talos_upgrade_image-IsAside env name) (
              IsAside-result (λ e. IsAside-pure _)
                (λ image. IsAside-write env (Effect.patch_install_image ip image))))
            _))

  is_self_hosted_upgrade-IsAside : Keeps IsAside (is_self_hosted_upgrade env)
  unfolding is_self_hosted_upgrade
  is_self_hosted_upgrade-IsAside =
      IsAside-bind (IsAside-ask _) (IsAside-result (λ e. IsAside-pure _) (λ nodes. IsAside-pure _))

  uncordon-IsAside : (name : String) → Keeps IsAside (uncordon env name)
  unfolding uncordon
  uncordon-IsAside name = IsAside-bind (IsAside-ask _) (
      IsAside-result (λ e. IsAside-pure _)
        (λ node. IsAside-if _ (IsAside-pure _) (
          IsAside-bind (IsAside-write env (Effect.set_unschedulable name false))
            (λ f. IsAside-pure _))))

  pub ensure_node_uncordoned-IsAside :
      (name : String) → Keeps IsAside (ensure_node_uncordoned env name)
  unfolding ensure_node_uncordoned
  ensure_node_uncordoned-IsAside name = IsAside-bind (IsAside-gets _) (λ u.
      IsAside-if _ (uncordon-IsAside name) (
        IsAside-bind is_self_hosted_upgrade-IsAside
          (λ alone. IsAside-if alone (uncordon-IsAside name) (IsAside-pure _))))

  pub delete_job-IsAside : (job : Job) → Keeps IsAside (delete_job env job)
  unfolding delete_job
  delete_job-IsAside job =
      IsAside-bind (IsAside-write env (Effect.delete_job job.name))
        (IsAside-option (IsAside-pure _) (λ e. IsAside-if _ (IsAside-pure _) (IsAside-pure _)))

  delete_terminal_jobs-IsAside : (jobs : List Job) → Keeps IsAside (delete_terminal_jobs env jobs)
  unfolding delete_terminal_jobs
  delete_terminal_jobs-IsAside [] = IsAside-pure _
  delete_terminal_jobs-IsAside (job ∷ jobs) = IsAside-if _ (delete_terminal_jobs-IsAside jobs) (
      IsAside-bind (delete_job-IsAside job)
        (IsAside-option (delete_terminal_jobs-IsAside jobs) (λ e. IsAside-pure _)))

  pub cleanup_job_for_node-IsAside : (name : String) → Keeps IsAside (cleanup_job_for_node env name)
  unfolding cleanup_job_for_node
  cleanup_job_for_node-IsAside name = IsAside-bind (IsAside-ask _) (
      IsAside-result (λ e. IsAside-pure (some (wrap ("failed to list jobs for node " ⧺ name) e)))
        (λ jobs. delete_terminal_jobs-IsAside (jobs_of_node env name jobs)))
