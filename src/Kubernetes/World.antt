-- ===== src/Kubernetes/World.antt =====
-- One reconcile of a KubernetesUpgrade as a program over its surroundings, built as Talos/World is:
-- `Env` answers each outside call by the number of the call, `World` holds the object in memory, the
-- status that the API server holds, and the effects that went through, newest first. Logs, metrics
-- and Kubernetes events are left out. Errors, replies and outcomes are those of Talos/World.
pub mod Contract
use tuppr.Prelude.{
  ℕ, suc, String, Bool, true, false, Option, none, some, List, [], ◌∷◌, ◌++◌, if◌then◌else◌,
}
use tuppr.Api.Cluster.{Node, Job, StringMap}
use tuppr.Api.Talos.{Time, Duration, HealthCheckSpec}
use tuppr.Api.Kubernetes.{KubernetesUpgrade, KubernetesUpgradeStatus}
use tuppr.Audit.{ConditionLibrary}
use tuppr.Coordination.{Plan}
use tuppr.Maintenance.{Calendar}
use tuppr.Talos.World.{Error, Result, HealthError, Reply, Outcome, ⊤}
use tuppr.Kubernetes.Status.{Update, apply_updates, names_generation}

pub record Env : Type 0 where
  pub controller_namespace : String  -- Reconciler.ControllerNamespace
  pub default_endpoint : String  -- Reconciler.DefaultEndpoint
  pub conditions : ConditionLibrary
  pub calendar : Calendar
  pub format_time : Time → String  -- Format(time.RFC3339)
  pub decimal : ℕ → String  -- %d
  pub now : ℕ → Time
  -- The name that GenerateSafeJobName makes up, with its random part (modelled in NodeUtil/Names).
  pub safe_job_name : ℕ → String → String → String
  -- The Kubernetes API.
  pub list_nodes : ℕ → Result (List Node)
  pub list_control_plane : ℕ → Result (List Node)  -- by the label of control-plane nodes
  pub list_jobs : ℕ → Result (List Job)  -- by the label of this controller's jobs
  pub list_talos_plans : ℕ → Option (List Plan)
  pub set_controller_reference : ℕ → Option Error
  pub write_fails : ℕ → Option Error
  pub server_version : ℕ → Result String  -- VersionGetter
  -- The Talos API and the health checker.
  pub get_node_version : ℕ → String → Result String
  pub check_health : ℕ → List HealthCheckSpec → Option HealthError

-- The parts of the batchv1.Job that the controller chooses.
pub record UpgradeJob : Type 0 where
  pub name : String
  pub labels : StringMap
  pub container_name : String
  pub image : String
  pub pull_policy : String
  pub args : List String
  pub backoff_limit : ℕ
  pub completions : ℕ
  pub ttl_seconds_after_finished : ℕ
  pub parallelism : ℕ
  pub active_deadline_seconds : ℕ
  pub grace_period : ℕ

-- What a reconcile does to the outside.
pub data Effect : Type 0 where
  patch_status : List Update → Effect
  update_object : Effect
  create_job : UpgradeJob → Effect
  delete_job : String → Effect

pub record World : Type 0 where
  pub calls : ℕ
  pub upgrade : KubernetesUpgrade
  pub stored : KubernetesUpgradeStatus
  pub trace : List Effect

abbrev pub M : Type 0 → Type 0
M A = World → Outcome A × World

abbrev pub continue : {A B : Type 0} → Outcome A → (A → M B) → M B
continue (Outcome.stop r) f w = (Outcome.stop r, w)
continue Outcome.hang f w = (Outcome.hang, w)
continue (Outcome.go a) f w = f a w

module _ {A : Type 0} where
  unfoldable pub pure : A → M A
  pure a w = (Outcome.go a, w)

  unfoldable pub stop_with : Reply → M A
  stop_with r w = (Outcome.stop r, w)

  unfoldable pub never_return : M A
  never_return w = (Outcome.hang, w)

  -- One outside call that changes nothing.
  unfoldable pub ask : (ℕ → A) → M A
  ask f w = (Outcome.go (f w.calls), record w { calls = suc w.calls })

  unfoldable pub gets : (World → A) → M A
  gets f w = (Outcome.go (f w), w)

infixl 5 ◌>>=◌ ◌>>◌
unfoldable pub ◌>>=◌ : {A B : Type 0} → M A → (A → M B) → M B
◌>>=◌ m f w = let (r, w') = m w in continue r f w'

abbrev pub ◌>>◌ : {A B : Type 0} → M A → M B → M B
m >> k = m >>= λ _. k

-- `return ctrl.Result{RequeueAfter: d}, nil` and `return ctrl.Result{}, err`.
abbrev pub requeue : {A : Type 0} → Duration → M A
requeue d = stop_with (record { requeue = d; error = none })

abbrev pub fail : {A : Type 0} → Error → M A
fail e = stop_with (record { requeue = 0; error = some e })

-- A change to the object in memory.
unfoldable pub modify_upgrade : (KubernetesUpgrade → KubernetesUpgrade) → M ⊤
modify_upgrade f w = (Outcome.go tt, record w { upgrade = f w.upgrade })

-- `kubernetesUpgrade.Status.… = …`
abbrev pub modify_status : (KubernetesUpgradeStatus → KubernetesUpgradeStatus) → M ⊤
modify_status f = modify_upgrade (λ u. record u { status = f u.status })

abbrev pub upgrade : M KubernetesUpgrade
upgrade = gets (λ w. w.upgrade)

abbrev pub status : M KubernetesUpgradeStatus
status = gets (λ w. w.upgrade.status)

-- A write to the outside: it fails and leaves nothing, or goes through and is recorded.
unfoldable pub record_write : Option Error → Effect → World → World
record_write none e w = record w { calls = suc w.calls; trace = e ∷ w.trace }
record_write (some x) e w = record w { calls = suc w.calls }

module _ (env : Env) where
  unfoldable pub write : Effect → M (Option Error)
  unfolding record_write
  write e w = (Outcome.go (env.write_fails w.calls), record_write (env.write_fails w.calls) e w)

  -- PatchStatus (upgradeaudit/status.go): the generation is added unless the updates name one.
  abbrev pub full_updates : List Update → ℕ → List Update
  full_updates us generation =
      if names_generation us then us else us ++ (Update.observed_generation generation ∷ [])

  unfoldable pub record_patch : Option Error → List Update → World → World
  record_patch none us w = record w {
    calls = suc w.calls;
    stored = apply_updates us w.stored;
    trace = Effect.patch_status us ∷ w.trace;
  }
  record_patch (some x) us w = record w { calls = suc w.calls }

  -- updateStatus (controller.go)
  unfoldable pub update_status : List Update → M (Option Error)
  unfolding record_patch
  update_status us w =
      let failed = env.write_fails w.calls in
      (Outcome.go failed, record_patch failed (full_updates us w.upgrade.generation) w)
