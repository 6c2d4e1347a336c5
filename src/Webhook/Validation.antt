-- ===== src/Webhook/Validation.antt =====
-- The checks that both webhooks share (internal/webhook/validation/validation.go). An error is its
-- text. Go's parsers of selectors, time zones, schedules and talosconfigs, and the API server, come
-- as `Library`. A negative duration, which the checks refuse as they do zero, is not represented.
pub mod Valid
use tuppr.Prelude.{
  ℕ, suc, ◌+◌, ◌*◌, String, Bool, true, false, not, ◌&&◌, ◌||◌, Option, none, some, List, [], ◌∷◌,
  ◌++◌, ltb, ◌==◌, str_eq, contains, ◌⧺◌, is_nil, if◌then◌else◌,
}
use tuppr.Api.Phase.{JobPhase, phase_text, is_in_flight}
use tuppr.Api.Cluster.{StringMap, lookup, is_empty}
use tuppr.Api.Talos.{Duration, Selector, HealthCheckSpec, TalosctlSpec, WindowSpec, Condition}
use tuppr.Audit.{ConditionLibrary, progressing_type}
use tuppr.Maintenance.{hour, week}
use tuppr.Webhook.Version.{is_pre_release}

-- An answer, or the text of an error.
pub data Answer (A : Type 0) : Type 0 where
  given : A → Answer A
  refused : String → Answer A

pub record Library : Type 0 where
  pub conditions : ConditionLibrary
  pub decimal : ℕ → String  -- %d
  pub parse_selector : Selector → Option String  -- metav1.LabelSelectorAsSelector: its error
  pub load_location : String → Option String  -- time.LoadLocation: its error
  pub parse_schedule : String → Option String  -- cron's parser: its error
  pub talosconfig_contexts : String → Answer ℕ  -- the contexts of a talosconfig
  -- The configuration of the webhook, and the data of the talosconfig secret.
  pub secret_name : String
  pub secret_namespace : String
  pub get_secret : Answer StringMap

-- `if err := f(); err != nil { return err }`
infixl 5 ◌then_check◌
abbrev pub ◌then_check◌ : Option String → Option String → Option String
none then_check rest = rest
some e then_check rest = some e

-- `if bad { return fmt.Errorf(…) }`
abbrev pub reject_if : Bool → String → Option String
reject_if true message = some message
reject_if false message = none

abbrev pub wrap_text : String → Option String → Option String
wrap_text prefix none = none
wrap_text prefix (some e) = some (prefix ⧺ ": " ⧺ e)

abbrev pub talos_secret_key : String
talos_secret_key = "config"

module _ (lib : Library) where
  -- The data of the secret: at the key, or else at "config".
  unfoldable pub first_data : Option String → Option String → Answer String
  first_data (some text) other = given text
  first_data none (some text) = given text
  first_data none none = refused (
      "talosconfig secret '" ⧺ lib.secret_name ⧺ "' missing required key '" ⧺ talos_secret_key
      ⧺ "'")

  unfoldable pub check_contexts : Answer ℕ → Option String
  check_contexts (refused e) =
      some ("talosconfig in secret '" ⧺ lib.secret_name ⧺ "' cannot be parsed: " ⧺ e)
  check_contexts (given n) =
      reject_if (n == 0) ("talosconfig in secret '" ⧺ lib.secret_name ⧺ "' has no contexts defined")

  unfoldable pub check_secret_data : Answer String → Option String
  unfolding check_contexts
  check_secret_data (refused e) = some e
  check_secret_data (given text) =
      if is_empty text
      then some "talosconfig secret data is empty"
      else check_contexts (lib.talosconfig_contexts text)

  unfoldable pub check_secret : Answer StringMap → Option String
  unfolding first_data check_secret_data
  check_secret (refused e) = some (
      "talosconfig secret '" ⧺ lib.secret_name ⧺ "' not found in namespace '" ⧺ lib.secret_namespace
      ⧺ "': " ⧺ e)
  check_secret (given data_of) =
      check_secret_data (first_data (lookup talos_secret_key data_of) (lookup "config" data_of))

  -- ValidateTalosConfigSecret
  unfoldable pub validate_talos_config_secret : Option String
  unfolding check_secret
  validate_talos_config_secret =
      if is_empty lib.secret_name
      then some "talos config secret name is empty"
      else check_secret lib.get_secret

  -- One round of ValidateHealthChecks.
  unfoldable pub validate_health_check : ℕ → HealthCheckSpec → Option String
  validate_health_check i check =
      let at = "healthChecks[" ⧺ lib.decimal i ⧺ "]: " in
      reject_if (is_empty check.api_version) (at ⧺ "apiVersion cannot be empty")
      then_check reject_if (is_empty check.kind) (at ⧺ "kind cannot be empty")
      then_check reject_if (is_empty check.expr) (at ⧺ "expr cannot be empty")
      then_check elim check.timeout [
        | none ↦ none
        | some d ↦ reject_if (d == 0) (at ⧺ "timeout must be positive")
      ]
      then_check elim check.label_selector [
        | none ↦ none
        | some s ↦
            reject_if (not (is_empty check.name))
              (at ⧺ "name and labelSelector are mutually exclusive")
            then_check wrap_text (at ⧺ "invalid labelSelector") (lib.parse_selector s)
      ]

  -- ValidateHealthChecks, from the index of the first check.
  unfoldable pub validate_health_checks : ℕ → List HealthCheckSpec → Option String
  unfolding validate_health_check
  validate_health_checks i [] = none
  validate_health_checks i (check ∷ checks) =
      validate_health_check i check then_check validate_health_checks (suc i) checks

  -- ValidateMaintenanceWindow's error.
  unfoldable pub validate_maintenance_window : WindowSpec → Option String
  validate_maintenance_window window =
      lib.load_location window.timezone
      then_check lib.parse_schedule window.start
      then_check reject_if (window.duration == 0) "duration must be positive"
      then_check reject_if (ltb week window.duration) "duration must not exceed 7 days (168h)"

  -- ValidateMaintenanceWindows' error.
  unfoldable pub validate_maintenance_windows : List WindowSpec → Option String
  unfolding validate_maintenance_window
  validate_maintenance_windows [] = none
  validate_maintenance_windows (window ∷ windows) =
      validate_maintenance_window window then_check validate_maintenance_windows windows

  -- ValidateUpdateInProgress, where `same` is whether the specs are deeply equal.
  unfoldable pub validate_update_in_progress : List Condition → JobPhase → Bool → Option String
  validate_update_in_progress conditions phase same =
      let cond = lib.conditions.find conditions progressing_type in
      let in_flight : Bool = elim cond [ none ↦ is_in_flight phase | some c ↦ c.status ] in
      let reason : String = elim cond [
        | none ↦ phase_text phase
        | some c ↦ if is_empty c.reason then phase_text phase else c.reason
      ] in
      if not in_flight || same
      then none
      else some ("cannot update spec while upgrade is in progress (reason: " ⧺ reason ⧺ ")")

  -- The warnings of GenerateCommonWarnings for the checks, from the index of the first.
  timeout_warnings : ℕ → List HealthCheckSpec → List String
  timeout_warnings i [] = []
  timeout_warnings i (check ∷ checks) = elim check.timeout [
    | none ↦ timeout_warnings (suc i) checks
    | some d ↦
        ("Health check "
          ⧺ lib.decimal i
          ⧺ " sets timeout, which has no effect: checks are re-evaluated until they pass.")
        ∷ timeout_warnings (suc i) checks
  ]

  -- GenerateCommonWarnings
  unfoldable pub generate_common_warnings : String → List HealthCheckSpec → String → List String
  unfolding timeout_warnings is_pre_release
  generate_common_warnings version checks talosctl_tag =
      timeout_warnings 0 checks
      ++ ((if is_pre_release version
            then "Target version appears to be a pre-release." ∷ []
            else [])
          ++ (if is_empty talosctl_tag
              then "No talosctl version specified, will auto-detect." ∷ []
              else []))

-- The windows of `spec`, where a nil spec has none; and their warnings.
abbrev pub windows_of : Option (List WindowSpec) → List WindowSpec
windows_of none = []
windows_of (some windows) = windows

abbrev pub window_warnings : List WindowSpec → List String
window_warnings [] = []
window_warnings (window ∷ windows) =
    if ltb window.duration hour
    then "maintenance window duration < 1h: may not be enough time to complete upgrades"
      ∷ window_warnings windows
    else window_warnings windows

-- ValidateTalosctlSpec
unfoldable pub validate_talosctl_spec : TalosctlSpec → Option String
validate_talosctl_spec spec =
    reject_if (is_empty spec.repository && not (is_empty spec.tag))
      "spec.talosctl.image.tag cannot be set without a repository"
    then_check reject_if
        (not (is_empty spec.pull_policy)
          && not (contains ("Always" ∷ "Never" ∷ "IfNotPresent" ∷ []) spec.pull_policy))
        ("invalid pullPolicy '" ⧺ spec.pull_policy ⧺ "'. Valid values: [Always Never IfNotPresent]")

-- ValidateSingleton, on the names of the resources of the kind.
unfoldable pub validate_singleton : String → String → List String → Option String
validate_singleton kind current [] = none
validate_singleton kind current (name ∷ names) =
    if str_eq name current
    then validate_singleton kind current names
    else some
        ("only one " ⧺ kind ⧺ " resource is allowed per cluster. Found existing: '" ⧺ name ⧺ "'")
