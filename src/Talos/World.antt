-- ===== src/Talos/World.antt =====
-- One reconcile of a TalosUpgrade as a program over its surroundings. `Env` answers each outside call
-- by the number of the call, so that nothing is assumed of what the cluster, the Talos API, a
-- registry or Alertmanager answer, or of how they change between two calls. `World` holds the object
-- in memory, the status that the API server holds, and the effects that went through, newest first.
-- Logs, metrics and Kubernetes events are left out.
pub mod Keeps
pub mod Effects
pub mod Aside
use tuppr.Prelude.{
  ℕ, suc, String, Bool, true, false, Option, none, some, List, [], ◌∷◌, ◌++◌, ◌⧺◌, if◌then◌else◌,
}
use tuppr.Api.Cluster.{Node, Job, Pod}
use tuppr.Api.Talos.{
  Time, Duration, Selector, HealthCheckSpec, SilenceMatcher, TalosUpgrade, TalosUpgradeStatus,
}
use tuppr.Audit.{ConditionLibrary}
use tuppr.Coordination.{Plan}
use tuppr.Maintenance.{Calendar}
use tuppr.Talos.Status.{Update, apply_updates, names_generation}

-- What an error tells the code that tests for it: apierrors.IsNotFound and IsAlreadyExists,
-- talos.IsTransientError and IsUnimplementedError, and the type nodeVersionMismatchError.
pub data ErrorKind : Type 0 where
  not_found already_exists transient unimplemented other_error : ErrorKind
  version_mismatch : String → String → ErrorKind

pub record Error : Type 0 where
  pub kind : ErrorKind
  pub text : String

-- `fmt.Errorf("…: %w", err)`
abbrev pub wrap : String → Error → Error
wrap prefix e = record e { text = prefix ⧺ ": " ⧺ e.text }

abbrev pub wrap_option : String → Option Error → Option Error
wrap_option prefix none = none
wrap_option prefix (some e) = some (wrap prefix e)

abbrev pub plain_error : String → Error
plain_error text = record { kind = ErrorKind.other_error; text = text }

abbrev pub is_transient : Error → Bool
is_transient e = elim e.kind [ ErrorKind.transient ↦ true | _ ↦ false ]

abbrev pub is_unimplemented : Error → Bool
is_unimplemented e = elim e.kind [ ErrorKind.unimplemented ↦ true | _ ↦ false ]

abbrev pub is_not_found : Error → Bool
is_not_found e = elim e.kind [ ErrorKind.not_found ↦ true | _ ↦ false ]

abbrev pub is_already_exists : Error → Bool
is_already_exists e = elim e.kind [ ErrorKind.already_exists ↦ true | _ ↦ false ]

pub data Result (A : Type 0) : Type 0 where
  ok : A → Result A
  err : Error → Result A

-- talos.ExtensionInfo
pub record ExtensionInfo : Type 0 where
  pub schematic : String
  pub extensions : List String

-- A failed health evaluation: its stable reason (healthcheck.Error) and its full text.
pub record HealthError : Type 0 where
  pub reason : String

-- The fields of Reconciler that are configuration.
pub record Config : Type 0 where
  pub controller_node_name : String
  pub controller_pod_name : String
  pub has_silencer : Bool  -- Silencer != nil
  pub metal_platform : String  -- platforms.MetalPlatform().Name
  pub cloud_platforms : List String  -- the names of platforms.CloudPlatforms()

pub record Env : Type 0 where
  pub config : Config
  pub conditions : ConditionLibrary
  pub calendar : Calendar
  pub format_time : Time → String  -- Format(time.RFC3339)
  pub format_duration : Duration → String
  pub decimal : ℕ → String  -- %d
  pub now : ℕ → Time
  -- The Kubernetes API.
  pub get_node : ℕ → String → Result Node
  pub list_nodes : ℕ → Option Selector → Result (List Node)
  pub list_control_plane : ℕ → Result (List Node)
  pub list_jobs : ℕ → String → Result (List Job)
  pub list_pods : ℕ → Result (List Pod)
  pub list_kubernetes_plans : ℕ → Option (List Plan)
  pub list_talos_plans : ℕ → Option (List Plan)
  pub get_job : ℕ → String → Option Error
  pub write_fails : ℕ → Option Error
  -- The Talos API.
  pub get_node_version : ℕ → String → Result String
  pub check_node_ready : ℕ → String → Option Error
  pub check_machine_ready : ℕ → String → Option Error
  pub check_etcd_healthy : ℕ → List String → Option Error
  pub get_node_install_image : ℕ → String → Result String
  pub get_node_extensions : ℕ → String → Result ExtensionInfo
  pub get_node_platform : ℕ → String → Result String
  -- The image registry, the health checker, the drainer's waits and Alertmanager.
  pub check_image : ℕ → String → Option Error
  pub check_health : ℕ → List HealthCheckSpec → Option HealthError
  pub evictable_volumes : ℕ → String → Result (List String)
  pub drain_node : ℕ → String → Option Error
  pub ensure_silence : ℕ → String → Result String

-- What a reconcile does to the outside.
pub data Effect : Type 0 where
  patch_status : List Update → Effect
  update_object : Effect
  set_unschedulable : String → Bool → Effect
  evict_pods : String → Effect
  create_job : String → String → String → Effect  -- node, image, endpoint
  create_hook_job : String → ℕ → Effect
  delete_job : String → Effect
  add_label : String → Effect
  remove_label : String → Effect
  add_taint : String → Effect
  remove_taint : String → Effect
  patch_install_image : String → String → Effect
  pull_image : String → String → Effect
  ensure_silence : String → List SilenceMatcher → Effect
  expire_silence : String → Effect

pub record World : Type 0 where
  pub calls : ℕ
  pub upgrade : TalosUpgrade
  pub stored : TalosUpgradeStatus
  pub trace : List Effect

-- ctrl.Result and the error that a reconcile returns.
pub record Reply : Type 0 where
  pub requeue : Duration
  pub error : Option Error

-- Go's early return: `if result, done := f(); done { return result }`. `hang` is a call that does not
-- return.
pub data Outcome (A : Type 0) : Type 0 where
  stop : Reply → Outcome A
  hang : Outcome A
  go : A → Outcome A

abbrev pub M : Type 0 → Type 0
M A = World → Outcome A × World

abbrev pub ⊤ : Type 0
⊤ = Unit

abbrev pub continue : {A B : Type 0} → Outcome A → (A → M B) → M B
continue (Outcome.stop r) f w = (Outcome.stop r, w)
continue Outcome.hang f w = (Outcome.hang, w)
continue (Outcome.go a) f w = f a w

module _ {A : Type 0} where
  unfoldable pub pure : A → M A
  pure a w = (Outcome.go a, w)

  unfoldable pub stop_with : Reply → M A
  stop_with r w = (Outcome.stop r, w)

  unfoldable pub never_return : M A
  never_return w = (Outcome.hang, w)

  -- One outside call that changes nothing.
  unfoldable pub ask : (ℕ → A) → M A
  ask f w = (Outcome.go (f w.calls), record w { calls = suc w.calls })

  unfoldable pub gets : (World → A) → M A
  gets f w = (Outcome.go (f w), w)

infixl 5 ◌>>=◌ ◌>>◌
unfoldable pub ◌>>=◌ : {A B : Type 0} → M A → (A → M B) → M B
◌>>=◌ m f w = let (r, w') = m w in continue r f w'

abbrev pub ◌>>◌ : {A B : Type 0} → M A → M B → M B
m >> k = m >>= λ _. k

-- `return ctrl.Result{RequeueAfter: d}, nil` and `return ctrl.Result{}, err`.
abbrev pub requeue : {A : Type 0} → Duration → M A
requeue d = stop_with (record { requeue = d; error = none })

abbrev pub fail : {A : Type 0} → Error → M A
fail e = stop_with (record { requeue = 0; error = some e })

-- `talosUpgrade.Status.… = …` on the object in memory.
unfoldable pub modify_status : (TalosUpgradeStatus → TalosUpgradeStatus) → M ⊤
modify_status f w =
    (Outcome.go tt, record w { upgrade = record w.upgrade { status = f w.upgrade.status } })

-- The same for the object itself.
unfoldable pub modify_upgrade : (TalosUpgrade → TalosUpgrade) → M ⊤
modify_upgrade f w = (Outcome.go tt, record w { upgrade = f w.upgrade })

abbrev pub status : M TalosUpgradeStatus
status = gets (λ w. w.upgrade.status)

abbrev pub upgrade : M TalosUpgrade
upgrade = gets (λ w. w.upgrade)

-- A write to the outside: it fails and leaves nothing, or goes through and is recorded.
unfoldable pub record_write : Option Error → Effect → World → World
record_write none e w = record w { calls = suc w.calls; trace = e ∷ w.trace }
record_write (some x) e w = record w { calls = suc w.calls }

module _ (env : Env) where
  unfoldable pub write : Effect → M (Option Error)
  unfolding record_write
  write e w = (Outcome.go (env.write_fails w.calls), record_write (env.write_fails w.calls) e w)

  -- A call that may have had its effect when it fails.
  unfoldable pub attempt : Effect → (ℕ → Option Error) → M (Option Error)
  attempt e answer w =
      (Outcome.go (answer w.calls), record w { calls = suc w.calls; trace = e ∷ w.trace })

  -- The same, for a call with an answer.
  unfoldable pub request : {A : Type 0} → Effect → (ℕ → A) → M A
  request e answer w =
      (Outcome.go (answer w.calls), record w { calls = suc w.calls; trace = e ∷ w.trace })

  -- PatchStatus (upgradeaudit/status.go): the generation is added unless the updates name one.
  -- LastUpdated, which nothing reads, and the cut of the times to whole seconds are left out.
  abbrev pub full_updates : List Update → ℕ → List Update
  full_updates us generation =
      if names_generation us then us else us ++ (Update.observed_generation generation ∷ [])

  unfoldable pub record_patch : Option Error → List Update → World → World
  record_patch none us w = record w {
    calls = suc w.calls;
    stored = apply_updates us w.stored;
    trace = Effect.patch_status us ∷ w.trace;
  }
  record_patch (some x) us w = record w { calls = suc w.calls }

  -- updateStatus (controller.go), whose resource version is left to the API server.
  unfoldable pub update_status : List Update → M (Option Error)
  unfolding record_patch
  update_status us w =
      let failed = env.write_fails w.calls in
      (Outcome.go failed, record_patch failed (full_updates us w.upgrade.generation) w)
