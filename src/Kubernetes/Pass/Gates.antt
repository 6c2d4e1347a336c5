-- ===== src/Kubernetes/Pass/Gates.antt =====
-- The gates of a pass and the start of a job keep to the rules: a job starts behind every gate.
use tuppr.Prelude.{
  ℕ, ◌<◌, ◌≡◌, refl, ◌∙◌, ap, sym, arith, inl, inr, String, false, Option, none, some, [], ◌∷◌,
  is_none, if◌then◌else◌,
}
use tuppr.Api.Phase.{JobPhase}
use tuppr.Api.Talos.{Time}
use tuppr.Api.Kubernetes.{KubernetesUpgradeSpec}
use tuppr.Coordination.{Verdict, UpgradeType, is_another_upgrade_active}
use tuppr.Maintenance.{WindowResult, Checked, check_window, requeue_after, minute}
use tuppr.Talos.Health.{retry_after}
use tuppr.Talos.World.{Result, ok, err, Error, HealthError, ⊤, plain_error}
use tuppr.Kubernetes.Nodes.{}
use tuppr.Kubernetes.Process.{
  await_window, follow_window, check_maintenance_window, follow_verdict, check_coordination,
  note_failing_since, follow_health, wait_for_health_checks, give_up, announce_job, start_on,
  start_upgrade, gate_and_start,
}
use tuppr.Kubernetes.Status.{Update}
use tuppr.Kubernetes.World.{Env, UpgradeJob}
use tuppr.Kubernetes.World.Contract.{
  Meets-pure, Meets-weaken, Meets-stop_with, Meets-never_return, Meets-ask, Meets-if, Meets-bind,
}
use tuppr.Kubernetes.Pass.{IsFree, HasNoJob, IsHealthy, IsOpen, IsLagging, pass_rules}
use tuppr.Kubernetes.Pass.Transition.{
  AreFine-if, upgrade-Meets, modify_upgrade-Meets, set_phase_with_updates-Meets, requeue-Meets,
  requeue_after_write-Meets, report_reconcile_error-Meets,
}
use tuppr.Kubernetes.Pass.Reads.{
  Promises, version_kept, ask-Meets, ControllerIsRead, find_controller_node-Meets,
}
use tuppr.Kubernetes.Pass.Steps.{create_job-Meets}

retry_after_pos : (d : ℕ) → 0 < retry_after d
unfolding retry_after
retry_after_pos d = omega arith

module _ (env : Env) (name : String) (spec : KubernetesUpgradeSpec) (Clear : Type 0) where
  await_window-Meets :
      {Q : ⊤ → Type 0} (r : WindowResult) (m : ℕ)
      → check_window env.calendar spec.maintenance (env.now m) ≡ Checked.result r
      → r.allowed ≡ false
      → Promises env name spec Clear Q (await_window env r)
  unfolding await_window pass_rules
  await_window-Meets r m is_result closed =
      Meets-bind _ _ (ask-Meets env name spec Clear env.now) (λ now (n, h).
        Meets-bind {P = λ _. ⊤} _ _
          (set_phase_with_updates-Meets env name spec Clear JobPhase.maintenance_window "" "" _
            (Update.next_maintenance_window _ ∷ []) tt (tt, tt))
          (λ _ _.
            Meets-stop_with _
              (inr (inr (m, n, r, is_result, closed, ap (requeue_after r) (sym h))))))

  follow_window-Meets :
      (c : Checked) (m : ℕ)
      → check_window env.calendar spec.maintenance (env.now m) ≡ c
      → Promises env name spec Clear (λ _. IsOpen env spec) (follow_window env c)
  unfolding follow_window pass_rules
  follow_window-Meets Checked.bad_window m h = Meets-stop_with _ (inl (_, refl))
  follow_window-Meets Checked.no_answer m h = Meets-never_return (m, h)
  follow_window-Meets (Checked.result r) m h =
      Meets-if r.allowed (λ allowed. Meets-pure tt (m, r, h, allowed))
        (λ closed. await_window-Meets r m h closed)

  pub check_maintenance_window-Meets :
      Promises env name spec Clear (λ _. IsOpen env spec) (check_maintenance_window env)
  unfolding check_maintenance_window
  check_maintenance_window-Meets = Meets-bind _ _ (upgrade-Meets env name spec Clear) (λ u i.
      Meets-bind _ _ (ask-Meets env name spec Clear env.now)
        (λ now (m, h). follow_window-Meets _ m (rw (i.spec_kept, h) refl)))

  follow_verdict-Meets :
      (v : Verdict) → Promises env name spec Clear (λ _. v ≡ Verdict.free) (follow_verdict env v)
  unfolding follow_verdict
  follow_verdict-Meets Verdict.list_failed =
      report_reconcile_error-Meets env name spec Clear "CheckCoordination"
        "check for other active upgrades" minute (plain_error "list failed") (omega arith)
  follow_verdict-Meets (Verdict.blocked message) =
      Meets-bind {P = λ _. ⊤} _ _
        (set_phase_with_updates-Meets env name spec Clear JobPhase.pending "WaitingForOtherUpgrade"
          "" message [] tt tt)
        (λ _ _. requeue-Meets env name spec Clear _ (omega arith))
  follow_verdict-Meets Verdict.free = Meets-pure tt refl

  module _ (clear : IsFree env name → Clear) where
    pub check_coordination-Meets :
        Promises env name spec Clear (λ _. Clear) (check_coordination env)
    unfolding check_coordination
    check_coordination-Meets = Meets-bind _ _ (upgrade-Meets env name spec Clear) (λ u i.
        Meets-bind _ _ (ask-Meets env name spec Clear env.list_talos_plans) (λ plans (n, h).
          Meets-weaken
            (λ _ is_free. clear (
              n,
              ap (λ p. is_another_upgrade_active none p name UpgradeType.kubernetes) h
                  ∙ ap (λ m. is_another_upgrade_active none plans m UpgradeType.kubernetes)
                      (sym i.name_kept)
                  ∙ is_free,
            ))
            _ (follow_verdict-Meets _)))

  note_failing_since-Meets :
      (failed : Option Error) (since : Option Time)
      → Promises env name spec Clear (λ _. ⊤) (note_failing_since env failed since)
  unfolding note_failing_since
  note_failing_since-Meets (some e) since = Meets-pure tt tt
  note_failing_since-Meets none since =
      modify_upgrade-Meets env name spec Clear _
        (λ u i. record { name_kept = i.name_kept; spec_kept = i.spec_kept; cycles = i.cycles })

  follow_health-Meets :
      (now : Time) (since : Option Time) (failed : Option HealthError) (n : ℕ)
      → env.check_health n spec.health_checks ≡ failed
      → Promises env name spec Clear (λ _. IsHealthy env spec) (follow_health env now since failed)
  unfolding follow_health
  follow_health-Meets now since (some e) n h =
      let began : Time = elim since [ none ↦ now | some t ↦ t ] in
      Meets-bind {P = λ _. ⊤} _ _
        (set_phase_with_updates-Meets env name spec Clear JobPhase.health_checking "" "" _
          (if is_none since then Update.health_checks_failing_since (some began) ∷ [] else []) tt
          (AreFine-if env name spec Clear (is_none since) _ _ (tt, tt) tt))
        (λ failed _.
          Meets-bind {P = λ _. ⊤} _ _ (note_failing_since-Meets failed (some began))
            (λ _ _. requeue-Meets env name spec Clear _ (retry_after_pos _)))
  follow_health-Meets now since none n h =
      Meets-bind {P = λ _. ⊤} _ _
        (set_phase_with_updates-Meets env name spec Clear JobPhase.health_checking "" "" _
          (if is_none since then [] else Update.health_checks_failing_since none ∷ []) tt
          (AreFine-if env name spec Clear (is_none since) _ _ tt (tt, tt)))
        (λ failed _. Meets-weaken (λ _ _. (n, h)) _ (note_failing_since-Meets failed none))

  pub wait_for_health_checks-Meets :
      Promises env name spec Clear (λ _. IsHealthy env spec) (wait_for_health_checks env)
  unfolding wait_for_health_checks
  wait_for_health_checks-Meets = Meets-bind {P = λ _. ⊤} _ _ (Meets-ask _ (λ n. tt)) (λ now _.
      Meets-bind _ _ (upgrade-Meets env name spec Clear) (λ u i.
        Meets-bind _ _ (ask-Meets env name spec Clear _) (λ failed (n, h).
          follow_health-Meets now _ failed n
            (ap (λ s. env.check_health n s.health_checks) (sym i.spec_kept) ∙ h))))

  module _ {Q : ⊤ → Type 0} where
    give_up-Meets :
        (node message : String) (after : ℕ)
        → 0 < after
        → Promises env name spec Clear Q (give_up env node message after)
    unfolding give_up
    give_up-Meets node message after h =
        Meets-bind {P = λ _. ⊤} _ _
          (set_phase_with_updates-Meets env name spec Clear JobPhase.failed "" node message [] tt
            tt)
          (λ _ _. requeue-Meets env name spec Clear after h)

    announce_job-Meets :
        (node : String) (r : Result UpgradeJob)
        → Promises env name spec Clear Q (announce_job env node r)
    unfolding announce_job
    announce_job-Meets node (err e) = give_up-Meets node _ _ (omega arith)
    announce_job-Meets node (ok job) = Meets-bind _ _ (upgrade-Meets env name spec Clear) (λ u i.
        Meets-bind {P = λ _. ⊤} _ _
          (set_phase_with_updates-Meets env name spec Clear JobPhase.upgrading "" node _
            (Update.job_name job.name ∷ []) tt (tt, tt))
          (λ failed _. requeue_after_write-Meets env name spec Clear _ _ failed (omega arith)))

    -- A job is created where every gate was passed.
    module _ (clear : Clear) (no_job : HasNoJob env spec) (lagging : IsLagging env spec) where
      start_on-Meets :
          (r : Result (String × String))
          → ControllerIsRead env name spec Clear r
          → IsHealthy env spec
          → IsOpen env spec
          → Promises env name spec Clear Q (start_on env r)
      unfolding start_on
      start_on-Meets (err e) read healthy window = give_up-Meets "" _ _ (omega arith)
      start_on-Meets (ok (node, ip)) read healthy window =
          Meets-bind {P = λ _. ⊤} _ _
            (create_job-Meets env name spec Clear node ip (λ job built. record {
              clear = clear;
              no_job = no_job;
              lagging = lagging;
              healthy = healthy;
              open_window = window;
              controller = (node, ip, read, built);
            }))
            (λ r _. announce_job-Meets node r)

      start_upgrade-Meets :
          IsHealthy env spec → IsOpen env spec → Promises env name spec Clear Q (start_upgrade env)
      unfolding start_upgrade
      start_upgrade-Meets healthy window =
          Meets-bind _ _ (upgrade-Meets env name spec Clear) (λ u i.
            Meets-bind _ _
              (find_controller_node-Meets env name spec Clear _
                (version_kept env name spec Clear i))
              (λ r read. start_on-Meets r read healthy window))

      pub gate_and_start-Meets : Promises env name spec Clear Q (gate_and_start env)
      unfolding gate_and_start
      gate_and_start-Meets = Meets-bind _ _ wait_for_health_checks-Meets (λ _ healthy.
          Meets-bind _ _ check_maintenance_window-Meets
            (λ _ window. start_upgrade-Meets healthy window))
