-- ===== src/Kubernetes/Pass/Steps.antt =====
-- The steps on the upgrade job keep to the rules of a pass.
use tuppr.Prelude.{
  ◌*◌, refl, arith, inr, String, Bool, true, false, not, Option, none, some, [], ◌∷◌, if◌then◌else◌,
}
use tuppr.Api.Phase.{JobPhase}
use tuppr.Api.Cluster.{Job, is_empty, is_succeeded, is_terminal_job}
use tuppr.Api.Kubernetes.{KubernetesUpgradeSpec}
use tuppr.Maintenance.{second, hour}
use tuppr.Talos.World.{Result, ok, err, Error, ⊤, wrap, is_not_found}
use tuppr.Kubernetes.Jobs.{
  talosctl_tag, build_job, submit, create_job, cleanup_job, complete_upgrade, continue_upgrade,
  handle_job_success, after_failure, handle_job_failure, await_job, handle_job_status,
}
use tuppr.Kubernetes.Status.{Update}
use tuppr.Kubernetes.World.{Env, Effect, UpgradeJob, pure, requeue}
use tuppr.Kubernetes.World.Contract.{
  Meets-pure, Meets-ask, Meets-gets, Meets-if, Meets-bind, Meets-result, Meets-option,
}
use tuppr.Kubernetes.Pass.{ControlPlaneIsAt, IsFor, IsGuarded}
use tuppr.Kubernetes.Pass.Transition.{
  upgrade-Meets, set_phase_with_updates-Meets, requeue-Meets, requeue_after_write-Meets, fail-Meets,
  write-Meets,
}
use tuppr.Kubernetes.Pass.Reads.{
  Promises, version_kept, ControlPlaneIsRead, are_all_control_plane_nodes_upgraded-Meets,
}

module _ (env : Env) (name : String) (spec : KubernetesUpgradeSpec) (Clear : Type 0) where
  talosctl_tag-Meets :
      (tag node ip : String) → Promises env name spec Clear (λ _. ⊤) (talosctl_tag env tag node ip)
  unfolding talosctl_tag
  talosctl_tag-Meets tag node ip =
      Meets-if (not (is_empty tag)) (λ _. Meets-pure _ tt)
        (λ _. Meets-bind {P = λ _. ⊤} _ _ (Meets-ask _ (λ n. tt)) (λ r _.
          Meets-result r (λ e _. Meets-pure _ tt)
            (λ version _.
              Meets-if (is_empty version) (λ _. Meets-pure _ tt) (λ _. Meets-pure _ tt))))

  abbrev IsBuilt : String → String → Result UpgradeJob → Type 0
  IsBuilt node ip (err e) = ⊤
  IsBuilt node ip (ok job) = IsFor env name spec Clear job node ip

  build_job-Meets :
      (node ip : String) → Promises env name spec Clear (IsBuilt node ip) (build_job env node ip)
  unfolding build_job
  build_job-Meets node ip = Meets-bind _ _ (upgrade-Meets env name spec Clear) (λ u i.
      Meets-bind {P = λ _. ⊤} _ _ (Meets-ask _ (λ n. tt)) (λ job_name _.
        Meets-bind {P = λ _. ⊤} _ _ (talosctl_tag-Meets _ node ip) (λ r _.
          Meets-result r (λ e _. Meets-pure _ tt)
            (λ tag _. Meets-pure _ (job_name, tag, rw (i.name_kept, i.spec_kept) refl)))))

  submit-Meets :
      (job : UpgradeJob)
      → IsGuarded env name spec Clear job
      → Promises env name spec Clear (λ _. ⊤) (submit env job)
  unfolding submit
  submit-Meets job guarded = Meets-bind {P = λ _. ⊤} _ _ (Meets-ask _ (λ n. tt)) (λ unset _.
      Meets-option unset
        (λ _.
          Meets-bind {P = λ _. ⊤} _ _
            (write-Meets env name spec Clear (Effect.create_job job) guarded)
            (λ failed _. Meets-option failed (λ _. Meets-pure _ tt) (λ e _. Meets-pure _ tt)))
        (λ e _. Meets-pure _ tt))

  pub create_job-Meets :
      (node ip : String)
      → ((job : UpgradeJob)
          → IsFor env name spec Clear job node ip
          → IsGuarded env name spec Clear job)
      → Promises env name spec Clear (λ _. ⊤) (create_job env node ip)
  unfolding create_job
  create_job-Meets node ip guarded =
      Meets-bind _ _ (build_job-Meets node ip) (λ r built. submitted r built)
    where
      submitted :
          (r : Result UpgradeJob)
          → IsBuilt node ip r
          → Promises env name spec Clear
              (λ _. ⊤)
              (elim r [
                | err e ↦ pure (err (wrap "failed to build job" e))
                | ok job ↦ submit env job
              ])
      submitted (err e) built = Meets-pure _ tt
      submitted (ok job) built = submit-Meets job (guarded job built)

  cleanup_job-Meets : (job : Job) → Promises env name spec Clear (λ _. ⊤) (cleanup_job env job)
  unfolding cleanup_job
  cleanup_job-Meets job =
      Meets-bind {P = λ _. ⊤} _ _ (write-Meets env name spec Clear (Effect.delete_job _) tt)
        (λ failed _.
          Meets-option failed (λ _. Meets-pure _ tt)
            (λ e _. Meets-if (is_not_found e) (λ _. Meets-pure _ tt) (λ _. Meets-pure _ tt)))

  module _ {Q : ⊤ → Type 0} where
    complete_upgrade-Meets :
        (target : String)
        → ControlPlaneIsAt env spec
        → Promises env name spec Clear Q (complete_upgrade env target)
    unfolding complete_upgrade
    complete_upgrade-Meets target reached =
        Meets-bind {P = λ _. ⊤} _ _
          (set_phase_with_updates-Meets env name spec Clear JobPhase.completed "" "" _
            (Update.current_version target ∷ Update.target_version target ∷ []) (inr reached)
            (tt, (tt, tt)))
          (λ failed _. requeue_after_write-Meets env name spec Clear _ hour failed (omega arith))

    continue_upgrade-Meets :
        (target : String) (job : Job)
        → Promises env name spec Clear Q (continue_upgrade env target job)
    unfolding continue_upgrade
    continue_upgrade-Meets target job = Meets-bind {P = λ _. ⊤} _ _ (cleanup_job-Meets job) (λ _ _.
        Meets-bind {P = λ _. ⊤} _ _
          (set_phase_with_updates-Meets env name spec Clear JobPhase.upgrading "" "" _
            (Update.job_name "" ∷ []) tt (tt, tt))
          (λ failed _. requeue_after_write-Meets env name spec Clear _ _ failed (omega arith)))

    handle_job_success-Meets :
        (job : Job) → Promises env name spec Clear Q (handle_job_success env job)
    unfolding handle_job_success
    handle_job_success-Meets job = Meets-bind _ _ (upgrade-Meets env name spec Clear) (λ u i.
        Meets-bind _ _
          (are_all_control_plane_nodes_upgraded-Meets env name spec Clear _
            (version_kept env name spec Clear i))
          (λ r read. verified u.spec.kubernetes.version r read))
      where
        verified :
            (target : String) (r : Result Bool)
            → ControlPlaneIsRead env name spec Clear r
            → Promises env name spec Clear Q (elim r [
              | err e ↦ requeue (30 * second)
              | ok upgraded ↦
                  if upgraded then complete_upgrade env target else continue_upgrade env target job
            ])
        verified target (err e) read = requeue-Meets env name spec Clear _ (omega arith)
        verified target (ok true) read = complete_upgrade-Meets target read
        verified target (ok false) read = continue_upgrade-Meets target job

    after_failure-Meets :
        (job : Job) (failed : Option Error)
        → Promises env name spec Clear Q (after_failure env job failed)
    unfolding after_failure
    after_failure-Meets job (some e) = fail-Meets env name spec Clear _
    after_failure-Meets job none =
        Meets-bind {P = λ _. ⊤} _ _ (cleanup_job-Meets job)
          (λ _ _. requeue-Meets env name spec Clear _ (omega arith))

    handle_job_failure-Meets :
        (job : Job) → Promises env name spec Clear Q (handle_job_failure env job)
    unfolding handle_job_failure
    handle_job_failure-Meets job = Meets-bind {P = λ _. ⊤} _ _ (Meets-gets _ (λ w i. tt)) (λ s _.
        Meets-bind {P = λ _. ⊤} _ _
          (set_phase_with_updates-Meets env name spec Clear JobPhase.failed "" _ _
            (Update.last_error "Job failed permanently" ∷ Update.job_name job.name ∷ []) tt
            (tt, (tt, tt)))
          (λ failed _. after_failure-Meets job failed))

    await_job-Meets : (job : Job) → Promises env name spec Clear Q (await_job env job)
    unfolding await_job
    await_job-Meets job = Meets-bind _ _ (upgrade-Meets env name spec Clear) (λ u i.
        Meets-bind {P = λ _. ⊤} _ _
          (set_phase_with_updates-Meets env name spec Clear JobPhase.upgrading "" _ _
            (Update.job_name job.name ∷ []) tt (tt, tt))
          (λ failed _. requeue_after_write-Meets env name spec Clear _ _ failed (omega arith)))

    pub handle_job_status-Meets :
        (job : Job) → Promises env name spec Clear Q (handle_job_status env job)
    unfolding handle_job_status
    handle_job_status-Meets job =
        Meets-if (not (is_terminal_job job)) (λ _. await_job-Meets job)
          (λ _.
            Meets-if (is_succeeded job) (λ _. handle_job_success-Meets job)
              (λ _. handle_job_failure-Meets job))
