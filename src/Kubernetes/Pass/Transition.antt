-- ===== src/Kubernetes/Pass/Transition.antt =====
-- A phase transition writes permitted updates only, and keeps the plan and its cycles.
use tuppr.Prelude.{
  ℕ, ◌≤◌, ◌<◌, ◌≡◌, refl, ◌∙◌, inl, inr, String, Bool, true, false, not, ◌&&◌, Option, none, some,
  List, [], ◌∷◌, ◌++◌, All, All-append, is_none, if◌then◌else◌, Option-cases,
}
use tuppr.Api.Phase.{JobPhase, is_active, is_terminal, is_pending, is_completed, is_health_checking}
use tuppr.Api.Talos.{Time, Duration, Condition}
use tuppr.Api.Kubernetes.{KubernetesUpgrade, KubernetesUpgradeSpec, KubernetesUpgradeStatus}
use tuppr.Audit.{max_completion_cycles}
use tuppr.Talos.World.{Error, ⊤, wrap}
use tuppr.Kubernetes.Jobs.{requeue_after_write}
use tuppr.Kubernetes.Phase.{
  next_conditions, is_unchanged, terminal_updates, apply_phase_audit_fields, phase_updates,
  after_patch, written, set_phase_with_updates, report_reconcile_error,
}
use tuppr.Kubernetes.Status.{
  Update, apply_update, apply_updates, sync_update, sync_local_audit_fields, names_generation,
}
use tuppr.Kubernetes.World.{
  Env, World, M, requeue, fail, modify_status, modify_upgrade, update_status, record_patch,
  full_updates, upgrade, Effect, write, record_write,
}
use tuppr.Kubernetes.World.Contract.{
  Meets, Meets-pure, Meets-stop_with, Meets-ask, Meets-gets, Meets-if, Meets-bind,
}
use tuppr.Kubernetes.Pass.{PermittedPhase, PermittedUpdate, Permitted, IsPlan, IsSound, pass_rules}

cycles-if :
    (b : Bool) (s t : KubernetesUpgradeStatus) {n : ℕ}
    → s.completion_cycles ≡ n
    → t.completion_cycles ≡ n
    → (if b then s else t).completion_cycles ≡ n
cycles-if true s t h k = h
cycles-if false s t h k = k

-- What syncLocalAuditFields mirrors leaves the cycles in memory alone.
cycles-sync_update :
    (u : Update) (s : KubernetesUpgradeStatus)
    → (sync_update u s).completion_cycles ≡ s.completion_cycles
cycles-sync_update u s =
    elim u as (λ u. (sync_update u s).completion_cycles ≡ s.completion_cycles) [
      | Update.started_at v ↦ refl
      | Update.completed_at v ↦ refl
      | Update.history v ↦ refl
      | _ ↦ refl
    ]

cycles-sync_local_audit_fields :
    (us : List Update) (s : KubernetesUpgradeStatus)
    → (sync_local_audit_fields us s).completion_cycles ≡ s.completion_cycles
cycles-sync_local_audit_fields [] s = refl
cycles-sync_local_audit_fields (u ∷ us) s =
    cycles-sync_local_audit_fields us (sync_update u s) ∙ cycles-sync_update u s

module _ (env : Env) (name : String) (spec : KubernetesUpgradeSpec) (Clear : Type 0) where
  abbrev pub AreFine : List Update → Type 0
  AreFine us = All (PermittedUpdate env name spec Clear) us

  abbrev Promises : {A : Type 0} → (A → Type 0) → M A → Type 0
  Promises = Meets (pass_rules env name spec Clear)

  cycles-apply_update :
      (u : Update) (s : KubernetesUpgradeStatus)
      → PermittedUpdate env name spec Clear u
      → s.completion_cycles ≤ max_completion_cycles
      → (apply_update u s).completion_cycles ≤ max_completion_cycles
  cycles-apply_update u s h le =
      elim u
          as (λ u.
            PermittedUpdate env name spec Clear u
            → (apply_update u s).completion_cycles ≤ max_completion_cycles) [
              | Update.completion_cycles n ↦ λ h. h
              | _ ↦ λ _. le
            ]
        h

  cycles-apply_updates :
      (us : List Update) (s : KubernetesUpgradeStatus)
      → AreFine us
      → s.completion_cycles ≤ max_completion_cycles
      → (apply_updates us s).completion_cycles ≤ max_completion_cycles
  cycles-apply_updates [] s h le = le
  cycles-apply_updates (u ∷ us) s h le =
      cycles-apply_updates us (apply_update u s) h.1 (cycles-apply_update u s h.0 le)

  pub AreFine-if :
      (b : Bool) (us vs : List Update) → AreFine us → AreFine vs → AreFine (if b then us else vs)
  AreFine-if true us vs h k = h
  AreFine-if false us vs h k = k

  AreFine-append : (us vs : List Update) → AreFine us → AreFine vs → AreFine (us ++ vs)
  AreFine-append us vs h k = All-append (PermittedUpdate env name spec Clear) us vs h k

  apply_phase_audit_fields-AreFine :
      (s : KubernetesUpgradeStatus) (p : JobPhase) (now : Time) (text : String)
      → AreFine (apply_phase_audit_fields s p now text)
  unfolding apply_phase_audit_fields terminal_updates
  apply_phase_audit_fields-AreFine s p now text =
      AreFine-if (is_pending p && not (is_pending s.phase)) _ _ (tt, (tt, tt))
        (AreFine-if (is_active p && is_none s.started_at) _ _ (tt, tt)
          (AreFine-if (is_terminal p && not (is_terminal s.phase)) _ _
            (AreFine-if (is_none s.completed_at) _ _
              (tt, AreFine-if (is_completed p && is_none s.started_at) _ _ tt (tt, tt)) tt)
            tt))

  phase_updates-AreFine :
      (s : KubernetesUpgradeStatus) (p : JobPhase) (node text : String) (conds : List Condition)
      (extra : List Update) (now : Time)
      → PermittedPhase env name spec Clear p
      → AreFine extra
      → AreFine (phase_updates env s p node text conds extra now)
  unfolding phase_updates
  phase_updates-AreFine s p node text conds extra now hp he = (
    hp,
    (
      tt,
      (
        tt,
        (
          tt,
          AreFine-append extra _ he (
              AreFine-append _ _ (AreFine-if (is_health_checking p) _ _ tt (tt, tt))
                (apply_phase_audit_fields-AreFine s p now text)),
        ),
      ),
    ),
  )

  full_updates-AreFine : (us : List Update) (g : ℕ) → AreFine us → AreFine (full_updates env us g)
  full_updates-AreFine us g h =
      AreFine-if (names_generation us) _ _ h (AreFine-append us _ h (tt, tt))

  record_patch-IsSound :
      (failed : Option Error) (us : List Update) (w : World)
      → AreFine us
      → IsSound env name spec Clear w
      → IsSound env name spec Clear (record_patch env failed us w)
  unfolding record_patch
  record_patch-IsSound none us w h i = record {
    plan = i.plan;
    stored_cycles = cycles-apply_updates us w.stored h i.stored_cycles;
    permitted = (h, i.permitted);
  }
  record_patch-IsSound (some e) us w h i = record {
    plan = i.plan;
    stored_cycles = i.stored_cycles;
    permitted = i.permitted;
  }

  pub update_status-Meets :
      (us : List Update) → AreFine us → Promises (λ _. ⊤) (update_status env us)
  unfolding update_status pass_rules
  update_status-Meets us h = record {
    at = λ w i. (
      record_patch-IsSound (env.write_fails w.calls) _ w
          (full_updates-AreFine us w.upgrade.generation h) i,
      tt,
    );
  }

  -- A change to the object in memory that keeps the plan.
  pub modify_upgrade-Meets :
      (f : KubernetesUpgrade → KubernetesUpgrade)
      → ((u : KubernetesUpgrade) → IsPlan env name spec Clear u → IsPlan env name spec Clear (f u))
      → Promises (λ _. ⊤) (modify_upgrade f)
  unfolding modify_upgrade pass_rules
  modify_upgrade-Meets f keeps = record {
    at = λ w i. (
      record {
        plan = keeps w.upgrade i.plan;
        stored_cycles = i.stored_cycles;
        permitted = i.permitted;
      },
      tt,
    );
  }

  cycles-written :
      (p : JobPhase) (node text : String) (conds : List Condition) (us : List Update)
      (s : KubernetesUpgradeStatus)
      → (written p node text conds us s).completion_cycles ≡ s.completion_cycles
  cycles-written p node text conds us s =
      cycles-sync_local_audit_fields us _ ∙ cycles-if (is_health_checking p) _ _ refl refl

  pub upgrade-Meets : Promises (IsPlan env name spec Clear) upgrade
  unfolding pass_rules
  upgrade-Meets = Meets-gets _ (λ w i. i.plan)

  after_patch-Meets :
      (failed : Option Error) (f : KubernetesUpgradeStatus → KubernetesUpgradeStatus)
      → ((s : KubernetesUpgradeStatus) → (f s).completion_cycles ≡ s.completion_cycles)
      → Promises (λ _. ⊤) (after_patch env failed f)
  unfolding after_patch
  after_patch-Meets (some e) f same = Meets-pure (some e) tt
  after_patch-Meets none f same =
      Meets-bind {P = λ _. ⊤} (modify_status f) _
        (modify_upgrade-Meets _ (λ u i. record {
          name_kept = i.name_kept;
          spec_kept = i.spec_kept;
          cycles = rw (same u.status) i.cycles;
        }))
        (λ _ _. Meets-pure none tt)

  -- setPhaseWithUpdates to a permitted phase, with permitted further updates.
  pub set_phase_with_updates-Meets :
      (p : JobPhase) (reason node text : String) (extra : List Update)
      → PermittedPhase env name spec Clear p
      → AreFine extra
      → Promises (λ _. ⊤) (set_phase_with_updates env p reason node text extra)
  unfolding set_phase_with_updates
  set_phase_with_updates-Meets p reason node text extra hp he =
      Meets-bind upgrade _ upgrade-Meets (λ u i.
        let conds = next_conditions env u p reason text in
        Meets-if (is_unchanged env u p reason node text extra) (λ _. Meets-pure none tt)
          (λ _. Meets-bind {P = λ _. ⊤} _ _ (Meets-ask _ (λ n. tt)) (λ now _.
            let us = phase_updates env u.status p node text conds extra now in
            Meets-bind {P = λ _. ⊤} _ _
              (update_status-Meets us
                (phase_updates-AreFine u.status p node text conds extra now hp he))
              (λ failed _. after_patch-Meets failed _ (cycles-written p node text conds us)))))

  -- A reply after a delay, and one with an error.
  pub requeue-Meets : {A : Type 0} {Q : A → Type 0} (d : Duration) → 0 < d → Promises Q (requeue d)
  unfolding pass_rules
  requeue-Meets d h = Meets-stop_with _ (inr (inl h))

  pub fail-Meets : {A : Type 0} {Q : A → Type 0} (e : Error) → Promises Q (fail e)
  unfolding pass_rules
  fail-Meets e = Meets-stop_with _ (inl (e, refl))

  -- reportReconcileError
  pub report_reconcile_error-Meets :
      {A : Type 0} {Q : A → Type 0} (reason op : String) (after : Duration) (e : Error)
      → 0 < after
      → Promises Q (report_reconcile_error env {A = A} reason op after e)
  unfolding report_reconcile_error
  report_reconcile_error-Meets reason op after e h =
      Meets-bind {P = λ _. ⊤} _ _
        (set_phase_with_updates-Meets JobPhase.pending reason "" _ [] tt tt)
        (λ _ _. requeue-Meets after h)

  -- A write to another object.
  pub write-Meets : (e : Effect) → Permitted env name spec Clear e → Promises (λ _. ⊤) (write env e)
  unfolding write record_write pass_rules
  write-Meets e h = record {
    at = λ w i. elim (Option-cases (env.write_fails w.calls)) [
      | inl none_failed ↦ rw none_failed (
        record { plan = i.plan; stored_cycles = i.stored_cycles; permitted = (h, i.permitted) },
        tt,
      )
      | inr (x, failed) ↦
          rw failed
            (record { plan = i.plan; stored_cycles = i.stored_cycles; permitted = i.permitted }, tt)
    ];
  }

  -- The reply after a status write: with its error, or after a delay.
  pub requeue_after_write-Meets :
      {Q : ⊤ → Type 0} (message : String) (after : ℕ) (failed : Option Error)
      → 0 < after
      → Promises Q (requeue_after_write env message after failed)
  unfolding requeue_after_write
  requeue_after_write-Meets message after (some e) h = fail-Meets (wrap message e)
  requeue_after_write-Meets message after none h = requeue-Meets after h
