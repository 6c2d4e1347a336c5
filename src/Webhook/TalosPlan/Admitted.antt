-- ===== src/Webhook/TalosPlan/Admitted.antt =====
-- What the webhook of TalosUpgrade admits.
use mathlib.Core.Path.{subst}
use tuppr.Prelude.{
  ◌≡◌, ◌↔◌, refl, ap, String, Bool, true, false, not, none, List, [], ◌∷◌, All, contains,
}
use tuppr.Api.Cluster.{}
use tuppr.Api.Phase.{}
use tuppr.Api.Kubernetes.{KubernetesUpgrade}
use tuppr.Api.Talos.{TalosUpgrade}
use tuppr.Webhook.Compatibility.{Tables}
use tuppr.Webhook.Compatibility.Passes.{kube_target_of}
use tuppr.Webhook.Compatibility.Path.{HasPath, validate_upgrade_path_iff}
use tuppr.Webhook.KubernetesPlan.Admitted.{validate_version_format_iff}
use tuppr.Webhook.TalosPlan.{
  Selection, nodes_of, Cluster, active_kubernetes_upgrade, or_empty, policy_error, path_verdict,
  first_error, spec_error, run_error, validation_error, validate, validate_create,
}
use tuppr.Webhook.Validation.{Library, Answer, given, refused, windows_of}
use tuppr.Webhook.Validation.Valid.{
  both, reject_if_iff, wrap_text_iff, IsValidCheck, IsValidWindow, HasTalosConfig, IsValidTalosctl,
  validate_talos_config_secret_iff, validate_health_checks_iff, validate_talosctl_spec_iff,
  validate_maintenance_windows_iff,
}
use tuppr.Webhook.Version.{is_version}
use tuppr.Webhook.TalosPlan.Target.{IsTarget, IsFirstTarget-first, IsFirstTarget-only}
use tuppr.Webhook.TalosPlan.Hooks.{HaveHooks, validate_hooks_iff, IsInRange, parallelism_error_iff}

-- A reboot mode and a placement that talosctl knows, or none.
pub record IsPolicy (t : TalosUpgrade) : Type 0 where
  pub mode : contains ("" ∷ "default" ∷ "powercycle" ∷ []) t.spec.policy.reboot_mode ≡ true
  pub placement : contains ("" ∷ "hard" ∷ "soft" ∷ []) t.spec.policy.placement ≡ true

module _ {S V K : Type 0} (lib : Library) (tables : Tables S V K) (cluster : Cluster) where
  policy_error_iff : (t : TalosUpgrade) → (policy_error lib tables cluster t ≡ none) ↔ IsPolicy t
  unfolding policy_error
  policy_error_iff t =
      let exact =
        both _ _
          (reject_if_iff
            (not (contains ("" ∷ "default" ∷ "powercycle" ∷ []) t.spec.policy.reboot_mode)) _)
          (reject_if_iff (not (contains ("" ∷ "hard" ∷ "soft" ∷ []) t.spec.policy.placement)) _) in
      (
        (λ h. let (a, b) = exact.0 h in record { mode = not_false _ a; placement = not_false _ b }),
        (λ h. exact.1 (ap not h.mode, ap not h.placement)),
      )
    where
      not_false : (b : Bool) → not b ≡ false → b ≡ true
      not_false true h = refl
      not_false false h = cc

  -- The selected nodes have a path to the version of the plan, where it is checked and they could be
  -- listed. A selector that cannot be parsed has none; nodes that could not be listed are let pass.
  abbrev pub HavePaths : Bool → Selection → TalosUpgrade → Type 0
  HavePaths false selection t = Unit
  HavePaths true (Selection.invalid_selector e) t = ⊥
  HavePaths true (Selection.list_failed e) t = Unit
  HavePaths true (Selection.selected nodes) t =
      (kube_target : String) × IsTarget cluster.list_kubernetes_plans kube_target
      × All (HasPath tables t.spec.talos.version kube_target) nodes

  IsTarget-given :
      (plans : Answer (List KubernetesUpgrade))
      → IsTarget plans (kube_target_of (active_kubernetes_upgrade (or_empty plans)))
  IsTarget-given (refused e) = refl
  IsTarget-given (given plans) = IsFirstTarget-first plans

  IsTarget-only :
      (plans : Answer (List KubernetesUpgrade)) (kube_target : String)
      → IsTarget plans kube_target
      → kube_target ≡ kube_target_of (active_kubernetes_upgrade (or_empty plans))
  IsTarget-only (refused e) kube_target h = h
  IsTarget-only (given plans) kube_target h = IsFirstTarget-only plans kube_target h

  path_verdict_iff :
      (checked : Bool) (selection : Selection) (t : TalosUpgrade)
      → ((path_verdict lib tables cluster checked selection t).1 ≡ none)
        ↔ HavePaths checked selection t
  unfolding path_verdict
  path_verdict_iff false selection t = ((λ h. tt), (λ h. refl))
  path_verdict_iff true (Selection.invalid_selector e) t = (cc, (λ h. absurd h))
  path_verdict_iff true (Selection.list_failed e) t = (
    (λ h. tt),
    (λ h. (validate_upgrade_path_iff tables lib.decimal _ t.spec.talos.version []).1 tt),
  )
  path_verdict_iff true (Selection.selected nodes) t =
      let exact =
        validate_upgrade_path_iff tables lib.decimal
          (active_kubernetes_upgrade (or_empty cluster.list_kubernetes_plans)) t.spec.talos.version
          nodes in
      (
        (λ h. (
          kube_target_of (active_kubernetes_upgrade (or_empty cluster.list_kubernetes_plans)),
          IsTarget-given cluster.list_kubernetes_plans,
          exact.0 h,
        )),
        (λ (kube_target, is_target, all). exact.1 (
            subst (λ k. All (HasPath tables t.spec.talos.version k) nodes)
              (IsTarget-only cluster.list_kubernetes_plans kube_target is_target) all)),
      )

  abbrev pub selection_of : TalosUpgrade → Selection
  selection_of t = cluster.list_selected_nodes 0 t.spec.node_selector

  pub record IsAdmissible (t : TalosUpgrade) : Type 0 where
    pub secret : HasTalosConfig lib
    pub version : is_version t.spec.talos.version ≡ true
    pub paths : HavePaths true (selection_of t) t
    pub checks : All (IsValidCheck lib) t.spec.health_checks
    pub talosctl : IsValidTalosctl t.spec.talosctl
    pub policy : IsPolicy t
    pub windows : All (IsValidWindow lib) (windows_of t.spec.maintenance)
    pub parallelism : IsInRange t.spec.parallelism (nodes_of (selection_of t))
    pub hooks : HaveHooks t.spec.hooks

  -- The webhook admits a new TalosUpgrade exactly when all of this holds: the talosconfig secret has a
  -- context; the version has the format; the node selector can be parsed, and if the nodes could be
  -- listed, each selected node has a path to the version, as the check of the upgrade path asks, with
  -- the version of the first active KubernetesUpgrade if these could be listed; each health check, the
  -- talosctl image and each window are valid, as for a KubernetesUpgrade; the reboot mode and the
  -- placement are known; the parallelism, if set, is at least one, and at most the number of selected
  -- nodes unless none was selected or listed; and the hooks of each list have names, images and no
  -- name twice.
  pub validate_create_talos_iff :
      (t : TalosUpgrade) → ((validate_create lib tables cluster t).1 ≡ none) ↔ IsAdmissible t
  unfolding validate_create validate validation_error first_error spec_error run_error
  validate_create_talos_iff t =
      let exact =
        both _ _
          (both _ _
            (both _ _
              (both _ _ (validate_talos_config_secret_iff lib) (
                wrap_text_iff "invalid talos version" _
                  (validate_version_format_iff t.spec.talos.version)))
              (path_verdict_iff true (selection_of t) t))
            (both _ _
              (both _ _ (validate_health_checks_iff lib 0 t.spec.health_checks)
                (validate_talosctl_spec_iff t.spec.talosctl))
              (policy_error_iff t)))
          (both _ _
            (both _ _
              (wrap_text_iff "spec.maintenanceWindow validation failed" _
                (validate_maintenance_windows_iff lib (windows_of t.spec.maintenance)))
              (parallelism_error_iff lib.decimal t.spec.parallelism (nodes_of (selection_of t))))
            (validate_hooks_iff lib.decimal t.spec.hooks)) in
      (
        (λ h.
            let (
              (((secret, version), paths), ((checks, talosctl), policy)),
              ((windows, parallelism), hooks),
            ) =
              exact.0 h in
            record {
              secret = secret;
              version = version;
              paths = paths;
              checks = checks;
              talosctl = talosctl;
              policy = policy;
              windows = windows;
              parallelism = parallelism;
              hooks = hooks;
            }),
        (λ a. exact.1 (
          (((a.secret, a.version), a.paths), ((a.checks, a.talosctl), a.policy)),
          ((a.windows, a.parallelism), a.hooks),
        )),
      )
