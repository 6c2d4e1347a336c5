-- ===== src/Kubernetes/Pass/Run.antt =====
-- A whole pass keeps to its rules, wherever it starts.
use tuppr.Prelude.{
  ℕ, ◌+◌, ◌≤◌, ◌<◌, ◌≡◌, ◌≢◌, ◌⊎◌, refl, ◌∙◌, ap, sym, arith, eq_iff, inl, inr, String, Bool, true,
  false, not, Option, none, some, [], ◌∷◌, leb, str_eq, is_none, if◌then◌else◌,
}
use tuppr.Api.Phase.{JobPhase, is_active, is_terminal, is_failed}
use tuppr.Api.Cluster.{Job}
use tuppr.Api.Kubernetes.{KubernetesUpgradeSpec}
use tuppr.Audit.{max_completion_cycles}
use tuppr.Maintenance.{minute, hour}
use tuppr.Talos.World.{Result, ok, err, ⊤}
use tuppr.Kubernetes.Jobs.{find_active_job}
use tuppr.Kubernetes.Phase.{report_reconcile_error}
use tuppr.Kubernetes.Process.{
  with_v, next_cycle, process_completed, process_terminal, record_versions, finish, process_nodes,
  follow_job, enter_run, process_run, stop_if, dispatch, process_upgrade, gate_and_start,
}
use tuppr.Kubernetes.Status.{Update}
use tuppr.Kubernetes.World.{Env, ◌>>=◌, ◌>>◌}
use tuppr.Kubernetes.World.Contract.{Meets-pure, Meets-gets, Meets-if, Meets-bind, Meets-result}
use tuppr.Kubernetes.Pass.{IsFree, NodesAreAt, ServerIsAt, HasNoJob}
use tuppr.Kubernetes.Pass.Transition.{
  upgrade-Meets, update_status-Meets, modify_upgrade-Meets, set_phase_with_updates-Meets,
  requeue-Meets, requeue_after_write-Meets, fail-Meets, report_reconcile_error-Meets,
}
use tuppr.Kubernetes.Pass.Reads.{
  Promises, version_kept, ask-Meets, JobsAreRead, find_active_job-Meets, NodesAreRead,
  are_all_nodes_upgraded-Meets,
}
use tuppr.Kubernetes.Pass.Steps.{handle_job_status-Meets}
use tuppr.Kubernetes.Pass.Gates.{
  check_maintenance_window-Meets, check_coordination-Meets, gate_and_start-Meets,
}
use tuppr.Kubernetes.Pass.Restart.{
  handle_suspend_annotation-Meets, handle_reset_annotation-Meets, handle_generation_change-Meets,
}

-- No version is the bare letter: the API accepts `v` and three numbers only.
module _ (env : Env) (name : String) (spec : KubernetesUpgradeSpec) (Clear : Type 0)
    (proper : spec.kubernetes.version ≢ "v") where
  abbrev VersionIsRead : String → Type 0
  VersionIsRead current = (current ≡ "") ⊎ ((n : ℕ) × (env.server_version n ≡ ok current))

  record_versions-Meets : Promises env name spec Clear VersionIsRead (record_versions env)
  unfolding record_versions
  record_versions-Meets = Meets-bind _ _ (upgrade-Meets env name spec Clear) (λ u i.
      Meets-bind _ _ (ask-Meets env name spec Clear env.server_version) (λ r (n, h).
        Meets-result r (λ e _. Meets-pure "" (inl refl))
          (λ current is_ok.
            Meets-if _ (λ _. Meets-pure current (inr (n, h ∙ is_ok)))
              (λ _.
                Meets-bind {P = λ _. ⊤} _ _
                  (update_status-Meets env name spec Clear
                    (Update.current_version current
                      ∷ Update.target_version u.spec.kubernetes.version
                      ∷ [])
                    (tt, (tt, tt)))
                  (λ _ _. Meets-pure current (inr (n, h ∙ is_ok)))))))

  server_read :
      (current version : String)
      → VersionIsRead current
      → version ≡ spec.kubernetes.version
      → not (str_eq (with_v current) version) ≡ false
      → ServerIsAt env spec
  server_read current version read same h =
      let at_version : with_v current ≡ version = ground (arith, eq_iff (with_v current) version) in
      elim read [
        | inl empty ↦ absurd (proper (sym same ∙ sym at_version ∙ ap with_v empty))
        | inr (n, is_ok) ↦ (n, current, is_ok, at_version ∙ same)
      ]

  module _ {Q : ⊤ → Type 0} where
    finish-Meets :
        (version current : String)
        → version ≡ spec.kubernetes.version
        → NodesAreAt env spec
        → VersionIsRead current
        → Promises env name spec Clear Q (finish env version current)
    unfolding finish
    finish-Meets version current same nodes read =
        Meets-if (not (str_eq (with_v current) version))
          (λ _. requeue-Meets env name spec Clear _ (omega arith))
          (λ h.
            Meets-bind {P = λ _. ⊤} _ _
              (set_phase_with_updates-Meets env name spec Clear JobPhase.completed "" "" _
                (Update.current_version version ∷ Update.target_version version ∷ [])
                (inl (nodes, server_read current version read same h)) (tt, (tt, tt)))
              (λ failed _.
                requeue_after_write-Meets env name spec Clear _ hour failed (omega arith)))

    next_cycle-Meets : Promises env name spec Clear Q (next_cycle env)
    unfolding next_cycle
    next_cycle-Meets = Meets-bind _ _ (upgrade-Meets env name spec Clear) (λ u i.
        Meets-if (leb max_completion_cycles u.status.completion_cycles)
          (λ _.
            Meets-bind {P = λ _. ⊤} _ _
              (set_phase_with_updates-Meets env name spec Clear JobPhase.failed "" "" _ [] tt tt)
              (λ failed _.
                requeue_after_write-Meets env name spec Clear _ hour failed (omega arith)))
          (λ below.
            let bound : u.status.completion_cycles + 1 ≤ max_completion_cycles = ground arith in
            Meets-bind {P = λ _. ⊤} _ _
              (set_phase_with_updates-Meets env name spec Clear JobPhase.pending "" "" _
                (Update.completion_cycles (u.status.completion_cycles + 1) ∷ []) tt (bound, tt))
              (λ failed _.
                Meets-bind {P = λ _. ⊤} _ _
                  (Meets-if (is_none failed)
                    (λ _. modify_upgrade-Meets env name spec Clear _ (λ v j. record {
                      name_kept = j.name_kept;
                      spec_kept = j.spec_kept;
                      cycles = bound;
                    }))
                    (λ _. Meets-pure tt tt))
                  (λ _ _. requeue_after_write-Meets env name spec Clear _ _ failed (omega arith)))))

    process_completed-Meets : Promises env name spec Clear Q (process_completed env)
    unfolding process_completed
    process_completed-Meets = Meets-bind _ _ (upgrade-Meets env name spec Clear) (λ u i.
        Meets-bind _ _
          (are_all_nodes_upgraded-Meets env name spec Clear _ (version_kept env name spec Clear i))
          (λ r read.
            Meets-result r
              (λ e _.
                report_reconcile_error-Meets env name spec Clear "CheckNodeVersions"
                  "re-check node versions" _ e (omega arith))
              (λ upgraded _.
                Meets-if upgraded (λ _. requeue-Meets env name spec Clear hour (omega arith))
                  (λ _. next_cycle-Meets))))

    process_terminal-Meets : Promises env name spec Clear Q (process_terminal env)
    unfolding process_terminal
    process_terminal-Meets = Meets-bind {P = λ _. ⊤} _ _ (Meets-gets _ (λ w i. tt)) (λ s _.
        Meets-if (is_failed s.phase) (λ _. requeue-Meets env name spec Clear _ (omega arith))
          (λ _. process_completed-Meets))

    process_nodes-Meets :
        Clear → HasNoJob env spec → Promises env name spec Clear Q (process_nodes env)
    unfolding process_nodes
    process_nodes-Meets clear no_job = Meets-bind _ _ record_versions-Meets (λ current version_read.
        Meets-bind _ _ (upgrade-Meets env name spec Clear) (λ u i.
          Meets-bind _ _
            (are_all_nodes_upgraded-Meets env name spec Clear _
              (version_kept env name spec Clear i))
            (λ r read.
              on_nodes current version_read u.spec.kubernetes.version
                (version_kept env name spec Clear i) r read)))
      where
        on_nodes :
            (current : String)
            → VersionIsRead current
            → (version : String) → version ≡ spec.kubernetes.version
            → (r : Result Bool) → NodesAreRead env name spec Clear r
            → Promises env name spec Clear Q (elim r [
              | err e ↦
                  report_reconcile_error env "CheckNodeVersions" "check node versions" minute e
              | ok upgraded ↦ if upgraded then finish env version current else gate_and_start env
            ])
        on_nodes current version_read version same (err e) read =
            report_reconcile_error-Meets env name spec Clear "CheckNodeVersions"
              "check node versions" minute e (omega arith)
        on_nodes current version_read version same (ok true) read =
            finish-Meets version current same read version_read
        on_nodes current version_read version same (ok false) read =
            gate_and_start-Meets env name spec Clear clear no_job read

    follow_job-Meets :
        Clear
        → (r : Result (Option Job)) → JobsAreRead env name spec Clear r
        → Promises env name spec Clear Q (follow_job env r)
    unfolding follow_job
    follow_job-Meets clear (err e) read =
        report_reconcile_error-Meets env name spec Clear "FindActiveJobs" "list active upgrade jobs"
          minute e (omega arith)
    follow_job-Meets clear (ok none) read = process_nodes-Meets clear read
    follow_job-Meets clear (ok (some job)) read = handle_job_status-Meets env name spec Clear job

  module _ (clear : IsFree env name → Clear) where
    enter_run-Meets :
        (phase : JobPhase)
        → (is_active phase ≡ true → Clear)
        → Promises env name spec Clear (λ _. Clear) (enter_run env phase)
    unfolding enter_run
    enter_run-Meets phase active =
        Meets-if (is_active phase) (λ h. Meets-pure tt (active h))
          (λ _.
            Meets-bind _ _ (check_maintenance_window-Meets env name spec Clear)
              (λ _ _. check_coordination-Meets env name spec Clear clear))

    -- processUpgrade for a run that is not over, past the read of its phase.
    pub enter_and_follow-Meets :
        {Q : ⊤ → Type 0} (phase : JobPhase)
        → (is_active phase ≡ true → Clear)
        → Promises env name spec Clear Q
            (do enter_run env phase; r ← find_active_job env; follow_job env r)
    enter_and_follow-Meets phase active = Meets-bind _ _ (enter_run-Meets phase active) (λ _ found.
        Meets-bind _ _ (find_active_job-Meets env name spec Clear)
          (λ r read. follow_job-Meets found r read))

  stop_if-Meets :
      (after : ℕ) (r : Result Bool)
      → 0 < after
      → Promises env name spec Clear (λ _. ⊤) (stop_if env after r)
  unfolding stop_if
  stop_if-Meets after (err e) h = fail-Meets env name spec Clear e
  stop_if-Meets after (ok true) h = requeue-Meets env name spec Clear after h
  stop_if-Meets after (ok false) h = Meets-pure tt tt

  module _ {Q : ⊤ → Type 0} (clear : Clear) where
    dispatch-Meets : Promises env name spec Clear Q (dispatch env)
    unfolding dispatch process_run
    dispatch-Meets = Meets-bind {P = λ _. ⊤} _ _ (Meets-gets _ (λ w i. tt)) (λ s _.
        Meets-if (is_terminal s.phase) (λ _. process_terminal-Meets)
          (λ _.
            Meets-bind {P = λ _. ⊤} _ _ (Meets-gets _ (λ w i. tt))
              (λ s _. enter_and_follow-Meets (λ _. clear) s.phase (λ _. clear))))

    -- processUpgrade
    pub process_upgrade-Meets : Promises env name spec Clear Q (process_upgrade env)
    unfolding process_upgrade
    process_upgrade-Meets =
        Meets-bind {P = λ _. ⊤} _ _ (handle_suspend_annotation-Meets env name spec Clear) (λ r _.
          Meets-bind {P = λ _. ⊤} _ _ (stop_if-Meets _ r (omega arith)) (λ _ _.
            Meets-bind {P = λ _. ⊤} _ _ (handle_reset_annotation-Meets env name spec Clear) (λ r _.
              Meets-bind {P = λ _. ⊤} _ _ (stop_if-Meets _ r (omega arith)) (λ _ _.
                Meets-bind {P = λ _. ⊤} _ _ (handle_generation_change-Meets env name spec Clear)
                  (λ r _.
                    Meets-bind {P = λ _. ⊤} _ _ (stop_if-Meets _ r (omega arith))
                      (λ _ _. dispatch-Meets))))))
