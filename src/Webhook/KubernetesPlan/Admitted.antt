-- ===== src/Webhook/KubernetesPlan/Admitted.antt =====
-- What the webhook of KubernetesUpgrade admits.
use tuppr.Prelude.{
  ◌≡◌, ◌↔◌, refl, ap, sym, ◌∙◌, arith, eq_iff, String, true, false, Option, none, some, List, All,
}
use tuppr.Api.Kubernetes.{KubernetesUpgrade}
use tuppr.Webhook.KubernetesPlan.{
  check_singleton, validation_error, verdict_of, validate, validate_create,
}
use tuppr.Webhook.Validation.{Library, Answer, given, refused, windows_of}
use tuppr.Webhook.Validation.Valid.{
  both, wrap_text_iff, IsValidCheck, IsValidWindow, HasTalosConfig, IsValidTalosctl,
  validate_talos_config_secret_iff, validate_health_checks_iff, validate_talosctl_spec_iff,
  validate_maintenance_windows_iff, validate_singleton_iff,
}
use tuppr.Webhook.Version.{is_version, validate_version_format}

is_version-empty : (version : String) → version ≡ "" → is_version version ≡ false
unfolding is_version
is_version-empty version e = ap is_version e

given_inj : {A : Type 0} {a b : A} → given a ≡ given b → a ≡ b
given_inj h = cc

pub validate_version_format_iff :
    (version : String) → (validate_version_format version ≡ none) ↔ (is_version version ≡ true)
unfolding validate_version_format
validate_version_format_iff version =
    ((λ h. ground arith), (λ h. ground (arith, is_version-empty version, eq_iff version "")))

module _ (lib : Library) (list_names : Answer (List String)) where
  pub record IsAdmissible (k : KubernetesUpgrade) : Type 0 where
    pub alone : (names : List String) × (list_names ≡ given names) × All (λ n. n ≡ k.name) names
    pub secret : HasTalosConfig lib
    pub version : is_version k.spec.kubernetes.version ≡ true
    pub checks : All (IsValidCheck lib) k.spec.health_checks
    pub talosctl : IsValidTalosctl k.spec.talosctl
    pub windows : All (IsValidWindow lib) (windows_of k.spec.maintenance)

  check_singleton_iff :
      (name : String) (answer : Answer (List String))
      → (check_singleton lib list_names name answer ≡ none)
        ↔ ((names : List String) × (answer ≡ given names) × All (λ n. n ≡ name) names)
  unfolding check_singleton
  check_singleton_iff name (refused e) = (cc, (λ (names, h, all). cc))
  check_singleton_iff name (given names) =
      let same = validate_singleton_iff "KubernetesUpgrade" name names in
      ((λ h. (names, refl, same.0 h)), (λ (others, h, all). same.1 (rw (given_inj h) all)))

  -- All checks together: the plan is admitted exactly when it is admissible.
  pub validation_error_iff :
      (k : KubernetesUpgrade) → (validation_error lib list_names k ≡ none) ↔ IsAdmissible k
  unfolding validation_error
  validation_error_iff k =
      let all =
        both _ _
          (both _ _
            (both _ _
              (both _ _
                (both _ _ (check_singleton_iff k.name list_names)
                  (validate_talos_config_secret_iff lib))
                (wrap_text_iff "invalid kubernetes version" _
                  (validate_version_format_iff k.spec.kubernetes.version)))
              (validate_health_checks_iff lib 0 k.spec.health_checks))
            (validate_talosctl_spec_iff k.spec.talosctl))
          (wrap_text_iff "spec.maintenanceWindow validation failed" _
            (validate_maintenance_windows_iff lib (windows_of k.spec.maintenance))) in
      (
        (λ h.
            let (((((alone, secret), version), checks), talosctl), windows) = all.0 h in
            record {
              alone = alone;
              secret = secret;
              version = version;
              checks = checks;
              talosctl = talosctl;
              windows = windows;
            }),
        (λ a. all.1 (((((a.alone, a.secret), a.version), a.checks), a.talosctl), a.windows)),
      )

  error-verdict_of :
      (k : KubernetesUpgrade) (o : Option String) → (verdict_of lib list_names k o).1 ≡ o
  unfolding verdict_of
  error-verdict_of k none = refl
  error-verdict_of k (some e) = refl

  -- The webhook admits a new KubernetesUpgrade exactly when all of this holds: the plans could be
  -- listed and each bears its name; the talosconfig secret could be read and has a context; the version
  -- has the format; each health check has an API version, a kind and an expression, no timeout of zero,
  -- and if it has a label selector, it has no name and the selector can be parsed; the talosctl image
  -- has a repository where it has a tag, and a pull policy that exists; and each window has a time zone
  -- and a schedule that can be parsed, and lasts more than nothing and at most a week.
  pub validate_create_kubernetes_iff :
      (k : KubernetesUpgrade) → ((validate_create lib list_names k).1 ≡ none) ↔ IsAdmissible k
  unfolding validate_create validate
  validate_create_kubernetes_iff k =
      let same = error-verdict_of k (validation_error lib list_names k) in
      let exact = validation_error_iff k in ((λ h. exact.0 (sym same ∙ h)), (λ a. same ∙ exact.1 a))
