-- ===== src/Kubernetes/Reconcile.antt =====
-- The life of a KubernetesUpgrade around its passes (internal/controller/kubernetesupgrade,
-- controller.go): Reconcile, cleanup and nodeToKubernetesUpgrades. Metrics are left out.
use tuppr.Prelude.{
  String, not, Option, none, some, List, [], ◌∷◌, ◌++◌, str_eq, contains, filter, map,
  if◌then◌else◌,
}
use tuppr.Api.Phase.{is_completed}
use tuppr.Api.Kubernetes.{KubernetesUpgrade}
use tuppr.Talos.World.{Error, ⊤, wrap, is_not_found}
use tuppr.Kubernetes.Process.{process_upgrade}
use tuppr.Kubernetes.World.{
  Env, M, Effect, upgrade, modify_upgrade, write, requeue, fail, stop_with, ◌>>=◌, ◌>>◌,
}

abbrev pub kubernetes_upgrade_finalizer : String
kubernetes_upgrade_finalizer = "tuppr.home-operations.com/kubernetes-finalizer"

-- controllerutil.AddFinalizer, on an object without it, and RemoveFinalizer.
abbrev add_finalizer : KubernetesUpgrade → KubernetesUpgrade
add_finalizer u = record u { finalizers = u.finalizers ++ (kubernetes_upgrade_finalizer ∷ []) }

abbrev remove_finalizer : KubernetesUpgrade → KubernetesUpgrade
remove_finalizer u = record u {
  finalizers = filter (λ f. not (str_eq f kubernetes_upgrade_finalizer)) u.finalizers;
}

-- nodeToKubernetesUpgrades: the names of the plans that a new node wakes; a failed list wakes none.
unfoldable pub node_to_kubernetes_upgrades : Option (List KubernetesUpgrade) → List String
node_to_kubernetes_upgrades none = []
node_to_kubernetes_upgrades (some plans) =
    map (λ u. u.name) (filter (λ u. is_completed u.status.phase) plans)

module _ (env : Env) where
  -- cleanup
  unfoldable pub cleanup : M ⊤
  cleanup = do
    modify_upgrade remove_finalizer
    failed ← write env Effect.update_object
    elim failed [ some e ↦ fail (wrap "remove finalizer" e) | none ↦ requeue 0 ]

  -- `return ctrl.Result{}, r.Update(ctx, kubernetesUpgrade)`
  register : M ⊤
  register = do
    modify_upgrade add_finalizer
    failed ← write env Effect.update_object
    stop_with (record { requeue = 0; error = failed })

  -- Reconcile once the object is there.
  reconcile_object : KubernetesUpgrade → M ⊤
  unfolding cleanup register process_upgrade
  reconcile_object u =
      if u.deleting
      then cleanup
      else (if contains u.finalizers kubernetes_upgrade_finalizer
          then process_upgrade env
          else register)

  -- Reconcile on the outcome of its read of the object.
  unfoldable pub reconcile : Option Error → M ⊤
  unfolding reconcile_object
  reconcile (some e) = if is_not_found e then requeue 0 else fail e
  reconcile none = do u ← upgrade; reconcile_object u
