-- ===== src/Webhook/KubernetesPlan.antt =====
-- The webhook of KubernetesUpgrade (internal/webhook/kubernetesupgrade/webhook.go). An admission is its
-- warnings and its error; the log is left out.
pub mod Admitted
use tuppr.Prelude.{
  String, Bool, true, false, Option, none, some, List, [], ◌∷◌, ◌++◌, ◌⧺◌, if◌then◌else◌,
}
use tuppr.Api.Phase.{is_active}
use tuppr.Api.Kubernetes.{KubernetesUpgrade}
use tuppr.Webhook.Validation.{
  Library, Answer, given, refused, ◌then_check◌, wrap_text, validate_talos_config_secret,
  validate_health_checks, validate_maintenance_windows, validate_update_in_progress,
  generate_common_warnings, windows_of, window_warnings, validate_talosctl_spec, validate_singleton,
}
use tuppr.Webhook.Version.{validate_version_format}

abbrev pub Admission : Type 0
Admission = List String × Option String

module _ (lib : Library) (list_names : Answer (List String)) where
  -- ValidateSingleton on the list of the plans.
  unfoldable pub check_singleton : String → Answer (List String) → Option String
  unfolding validate_singleton
  check_singleton name (refused e) = some ("failed to list resources: " ⧺ e)
  check_singleton name (given names) = validate_singleton "KubernetesUpgrade" name names

  -- The checks of validate, in their order.
  unfoldable pub validation_error : KubernetesUpgrade → Option String
  unfolding check_singleton validate_talos_config_secret validate_version_format
      validate_health_checks validate_talosctl_spec validate_maintenance_windows
  validation_error k =
      check_singleton k.name list_names
      then_check validate_talos_config_secret lib
      then_check wrap_text "invalid kubernetes version"
          (validate_version_format k.spec.kubernetes.version)
      then_check validate_health_checks lib 0 k.spec.health_checks
      then_check validate_talosctl_spec k.spec.talosctl
      then_check wrap_text "spec.maintenanceWindow validation failed"
          (validate_maintenance_windows lib (windows_of k.spec.maintenance))

  -- The end of validate, on the outcome of the checks.
  unfoldable pub verdict_of : KubernetesUpgrade → Option String → Admission
  unfolding generate_common_warnings
  verdict_of k (some e) = ([], some e)
  verdict_of k none = (
    window_warnings (windows_of k.spec.maintenance)
        ++ generate_common_warnings lib k.spec.kubernetes.version k.spec.health_checks
            k.spec.talosctl.tag,
    none,
  )

  -- validate: no check warns before the last one passed.
  unfoldable pub validate : KubernetesUpgrade → Admission
  unfolding validation_error verdict_of
  validate k = verdict_of k (validation_error k)

  -- ValidateCreate
  unfoldable pub validate_create : KubernetesUpgrade → Admission
  unfolding validate
  validate_create k = validate k

  -- ValidateUpdate, where `same` is whether the specs are deeply equal.
  unfoldable pub validate_update : KubernetesUpgrade → KubernetesUpgrade → Bool → Admission
  unfolding validate validate_update_in_progress
  validate_update old k same =
      elim (validate_update_in_progress lib old.status.conditions old.status.phase same) [
        | some e ↦ ([], some e)
        | none ↦ validate k
      ]

-- ValidateDelete
unfoldable pub validate_delete : KubernetesUpgrade → Admission
validate_delete k =
    if is_active k.status.phase
    then (
      ("Deleting KubernetesUpgrade '" ⧺ k.name
            ⧺ "' while upgrade is in progress. This may leave the cluster in an inconsistent state.")
          ∷ [],
      none,
    )
    else ([], none)
