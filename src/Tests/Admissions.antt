-- ===== src/Tests/Admissions.antt =====
-- The webhook theorems at plans that are admitted, with tables that know every version.
use tuppr.Prelude.{◌≡◌, ◌↔◌, ◌⊎◌, refl, String, Bool, true, false, none, some, [], ◌∷◌, All}
use tuppr.Api.Phase.{JobPhase, is_in_flight}
use tuppr.Api.Cluster.{}
use tuppr.Api.Kubernetes.{KubernetesUpgrade}
use tuppr.Audit.{apply_conditions}
use tuppr.Tests.Fixtures.{node_of, plan}
use tuppr.Tests.Plans.{library, library-IsConditionLibrary}
use tuppr.Tests.Upgrades.{world_to}
use tuppr.Webhook.Compatibility.{Tables, validate_upgrade_path}
use tuppr.Webhook.Compatibility.Path.{HasPath, validate_upgrade_path_iff}
use tuppr.Webhook.KubernetesPlan
use tuppr.Webhook.KubernetesPlan.Admitted as KubernetesAdmitted
use tuppr.Webhook.TalosPlan
use tuppr.Webhook.TalosPlan.{Cluster, Selection}
use tuppr.Webhook.TalosPlan.Admitted as TalosAdmitted
use tuppr.Webhook.Validation.{Library, given, validate_update_in_progress}
use tuppr.Webhook.Validation.Valid.{validate_update_in_progress_iff}
use tuppr.Webhook.Version.{is_version, is_pre_release}

abbrev lib : Library
lib = record {
  conditions = library;
  decimal = λ n. "number";
  parse_selector = λ s. none;
  load_location = λ s. none;
  parse_schedule = λ s. none;
  talosconfig_contexts = λ s. given 1;
  secret_name = "talosconfig";
  secret_namespace = "tuppr-system";
  get_secret = given (("config", "context") ∷ []);
}

abbrev tables : Tables String String String
tables = record {
  strict_new_version = λ s. given s;
  major = λ s. "1";
  minor = λ s. "13";
  greater_than = λ s t. false;
  parse_talos_version = λ s. given s;
  upgradeable_from = λ s t. none;
  parse_kubernetes_version = λ s. given s;
  supported_with = λ s t. none;
}

abbrev cluster : Cluster
cluster = record {
  alertmanager_configured = true;
  list_selected_nodes =
      λ n s. Selection.selected (node_of true "cp-1" ∷ node_of false "worker-1" ∷ []);
  list_plans = given [];
  list_kubernetes_plans = given [];
  list_control_plane = given [];
  selector_text = λ s. given "";
  same_selector = λ a b. true;
}

abbrev kubernetes_plan : KubernetesUpgrade
kubernetes_plan = (world_to "v1.35.0").upgrade

formats : is_version "v1.34.0-rc.1" ≡ true
unfolding is_version
formats = refl

refuses_format : is_version "1.34.0" ≡ false
unfolding is_version
refuses_format = refl

pre_releases : is_pre_release "v1.34.0-rc.1" ≡ true
unfolding is_pre_release
pre_releases = refl

admits : (KubernetesPlan.validate_create lib (given []) kubernetes_plan).1 ≡ none
unfolding KubernetesPlan.validate_create
admits = refl

admits_talos : (TalosPlan.validate_create lib tables cluster plan).1 ≡ none
unfolding TalosPlan.validate_create
admits_talos = refl

validate_create_kubernetes_iff_example :
    ((KubernetesPlan.validate_create lib (given []) kubernetes_plan).1 ≡ none)
    ↔ KubernetesAdmitted.IsAdmissible lib (given []) kubernetes_plan
validate_create_kubernetes_iff_example =
    KubernetesAdmitted.validate_create_kubernetes_iff lib (given []) kubernetes_plan

validate_create_talos_iff_example :
    ((TalosPlan.validate_create lib tables cluster plan).1 ≡ none)
    ↔ TalosAdmitted.IsAdmissible lib tables cluster plan
validate_create_talos_iff_example = TalosAdmitted.validate_create_talos_iff lib tables cluster plan

validate_upgrade_path_iff_example :
    ((validate_upgrade_path tables
        (λ n. "number")
        (some ("kubernetes", "v1.35.0"))
        "v1.13.1"
        (node_of true "cp-1" ∷ [])).1
      ≡ none)
    ↔ All (HasPath tables "v1.13.1" "v1.35.0") (node_of true "cp-1" ∷ [])
validate_upgrade_path_iff_example =
    validate_upgrade_path_iff tables (λ n. "number") (some ("kubernetes", "v1.35.0")) "v1.13.1"
      (node_of true "cp-1" ∷ [])

validate_update_in_progress_iff_example :
    (validate_update_in_progress lib
        (apply_conditions library [] JobPhase.draining "" "Draining" 4)
        JobPhase.pending
        false
      ≡ none)
    ↔ ((◌≡◌ {A = Bool} false true) ⊎ (is_in_flight JobPhase.draining ≡ false))
validate_update_in_progress_iff_example =
    validate_update_in_progress_iff lib library-IsConditionLibrary [] JobPhase.draining ""
      "Draining" 4 JobPhase.pending false
