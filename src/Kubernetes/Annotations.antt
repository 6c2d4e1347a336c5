-- ===== src/Kubernetes/Annotations.antt =====
-- What restarts or holds a KubernetesUpgrade
-- (internal/controller/kubernetesupgrade/annotations.go).
use tuppr.Prelude.{
  String, Bool, true, false, not, Option, none, some, List, [], ◌∷◌, leb, str_eq, ◌⧺◌, filter,
  if◌then◌else◌,
}
use tuppr.Api.Phase.{JobPhase}
use tuppr.Api.Cluster.{lookup, has_key}
use tuppr.Talos.Annotations.{reset_annotation, suspend_annotation}
use tuppr.Talos.World.{Result, ok, err, Error, wrap}
use tuppr.Kubernetes.Phase.{set_pending_with_reason, set_phase_with_updates}
use tuppr.Kubernetes.Status.{Update}
use tuppr.Kubernetes.World.{
  Env, M, Effect, pure, upgrade, modify_status, modify_upgrade, write, ◌>>=◌, ◌>>◌,
}

-- What both restarts clear.
abbrev pub restart_updates : List Update
restart_updates =
    Update.job_name "" ∷ Update.retries 0 ∷ Update.last_error "" ∷ Update.completion_cycles 0 ∷ []

module _ (env : Env) where
  -- The end of handleSuspendAnnotation, on the answer of the status write: whether the run is
  -- suspended, or the error.
  unfoldable pub suspend_answer : Option Error → M (Result Bool)
  suspend_answer (some e) = pure (err (wrap "set suspended phase" e))
  suspend_answer none = pure (ok true)

  -- handleSuspendAnnotation on the value of the annotation.
  unfoldable pub suspend : Option String → M (Result Bool)
  unfolding set_phase_with_updates suspend_answer
  suspend none = pure (ok false)
  suspend (some value) = do
    failed ←
        set_pending_with_reason env "Suspended" (
          "Controller suspended via annotation (value: " ⧺ value
          ⧺ ") - remove annotation to resume")
    suspend_answer failed

  -- handleSuspendAnnotation
  unfoldable pub handle_suspend_annotation : M (Result Bool)
  unfolding suspend
  handle_suspend_annotation = do u ← upgrade; suspend (lookup suspend_annotation u.annotations)

  -- The common end of the two restarts: the phase is written, then the cycles in memory follow.
  unfoldable pub restart_answer : (Error → Error) → Option Error → M (Result Bool)
  restart_answer f (some e) = pure (err (f e))
  restart_answer f none = do modify_status (λ s. record s { completion_cycles = 0 }); pure (ok true)

  unfoldable pub restart : String → (Error → Error) → M (Result Bool)
  unfolding set_phase_with_updates restart_answer
  restart message f = do
    failed ← set_phase_with_updates env JobPhase.pending "" "" message restart_updates
    restart_answer f failed

  -- handleResetAnnotation. The status that the API server sends back with the update is the one
  -- that the pass began with: it is left as it is in memory.
  unfoldable pub handle_reset_annotation : M (Result Bool)
  unfolding restart
  handle_reset_annotation = do
    u ← upgrade
    if not (has_key reset_annotation u.annotations) then pure (ok false) else do
      modify_upgrade (λ u. record u {
        annotations = filter (λ (k, _). not (str_eq k reset_annotation)) u.annotations;
      })
      failed ← write env Effect.update_object
      elim failed [
        | some e ↦ pure (err (wrap "remove reset annotation" e))
        | none ↦ restart "Reset requested via annotation" (wrap "reset status after annotation")
      ]

  -- handleGenerationChange
  unfoldable pub handle_generation_change : M (Result Bool)
  unfolding restart
  handle_generation_change = do
    u ← upgrade
    if leb u.generation u.status.observed_generation
        then pure (ok false)
        else restart
            ("Spec updated to " ⧺ u.spec.kubernetes.version ⧺ ", restarting upgrade process")
            (λ e. e)
