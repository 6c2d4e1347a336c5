-- ===== src/Webhook/TalosPlan.antt =====
-- The webhook of TalosUpgrade (internal/webhook/talosupgrade/webhook.go). Each list of nodes is
-- answered by the number of the call; the log is left out. Numbers are shown by `decimal`, and `%v`
-- of names in brackets.
pub mod Admitted
mod Hooks
pub mod Target
use tuppr.Prelude.{
  ℕ, suc, ◌+◌, ◌≤◌, ◌<◌, String, Bool, true, false, not, ◌&&◌, ◌||◌, Option, none, some, List, [],
  ◌∷◌, ◌++◌, ltb, leb, ◌==◌, str_eq, contains, take, length, map, filter, max, ◌⧺◌, is_nil,
  if◌then◌else◌,
}
use tuppr.Api.Phase.{JobPhase, is_active}
use tuppr.Api.Cluster.{Node, is_empty}
use tuppr.Api.Kubernetes.{KubernetesUpgrade}
use tuppr.Api.Talos.{Selector, HookSpec, HooksSpec, TalosUpgrade}
use tuppr.Kubernetes.Jobs.{spaced}
use tuppr.Talos.Nodes.{is_control_plane}
use tuppr.Webhook.Compatibility.{Tables, sort_names, validate_upgrade_path}
use tuppr.Webhook.KubernetesPlan.{Admission}
use tuppr.Webhook.Validation.{
  Library, Answer, given, refused, ◌then_check◌, reject_if, wrap_text, validate_talos_config_secret,
  validate_health_checks, validate_maintenance_windows, validate_update_in_progress,
  generate_common_warnings, windows_of, window_warnings, validate_talosctl_spec,
}
use tuppr.Webhook.Version.{validate_version_format}

-- What ListSelectedNodes returns.
pub data Selection : Type 0 where
  selected : List Node → Selection
  invalid_selector : String → Selection  -- ErrInvalidNodeSelector
  list_failed : String → Selection

-- The nodes of a selection, which are nil after an error.
abbrev pub nodes_of : Selection → List Node
nodes_of (Selection.selected nodes) = nodes
nodes_of _ = []

pub record Cluster : Type 0 where
  pub alertmanager_configured : Bool
  pub list_selected_nodes : ℕ → Option Selector → Selection
  pub list_plans : Answer (List TalosUpgrade)
  pub list_kubernetes_plans : Answer (List KubernetesUpgrade)
  pub list_control_plane : Answer (List Node)
  pub selector_text : Option Selector → Answer String  -- ParseNodeSelector, as text
  pub same_selector : Option Selector → Option Selector → Bool  -- reflect.DeepEqual

abbrev names_of : List Node → List String
names_of nodes = map (λ n. n.name) nodes

-- A set of names, each once.
abbrev once : List String → List String
once [] = []
once (x ∷ xs) = let rest = once xs in if contains xs x then rest else x ∷ rest

-- findNodeIntersection, on the names of two selections.
abbrev pub find_node_intersection : List String → List String → List String
find_node_intersection a b = sort_names (filter (contains b) (once a))

-- The names that an overlap shows.
abbrev pub shown_overlap : List String → List String
shown_overlap names = if ltb 3 (length names) then take 3 names ++ ("..." ∷ []) else names

-- The loop of validateHookList, with the names seen so far.
unfoldable pub hook_list_loop :
    (ℕ → String) → String → ℕ → List String → List HookSpec → Option String
hook_list_loop decimal path i seen [] = none
hook_list_loop decimal path i seen (h ∷ hooks) =
    reject_if (is_empty h.name) (path ⧺ "[" ⧺ decimal i ⧺ "].name is required")
    then_check reject_if (is_empty h.image) (path ⧺ "[" ⧺ decimal i ⧺ "].image is required")
    then_check reject_if (contains seen h.name) (path ⧺ ": duplicate hook name \"" ⧺ h.name ⧺ "\"")
    then_check hook_list_loop decimal path (suc i) (h.name ∷ seen) hooks

-- validateHookList
unfoldable pub validate_hook_list : (ℕ → String) → String → List HookSpec → Option String
unfolding hook_list_loop
validate_hook_list decimal path hooks = hook_list_loop decimal path 0 [] hooks

-- validateHooks
unfoldable pub validate_hooks : (ℕ → String) → Option HooksSpec → Option String
unfolding validate_hook_list
validate_hooks decimal none = none
validate_hooks decimal (some hooks) =
    validate_hook_list decimal "spec.hooks.pre" hooks.pre
    then_check validate_hook_list decimal "spec.hooks.post" hooks.post

-- validateParallelism's error.
unfoldable pub parallelism_error : (ℕ → String) → Option ℕ → List Node → Option String
parallelism_error decimal none nodes = none
parallelism_error decimal (some p) nodes =
    reject_if (ltb p 1) ("spec.parallelism must be >= 1, got " ⧺ decimal p)
    then_check reject_if (ltb 0 (length nodes) && ltb (length nodes) p) (
        "spec.parallelism ("
        ⧺ decimal p
        ⧺ ") exceeds number of matching nodes ("
        ⧺ decimal (length nodes)
        ⧺ ")")

-- validateParallelism's warnings, where it has no error.
unfoldable pub parallelism_warnings : (ℕ → String) → Option ℕ → List Node → List String
parallelism_warnings decimal none nodes = []
parallelism_warnings decimal (some p) nodes =
    let workers = length (filter (λ n. not (is_control_plane n)) nodes) in
    if leb p 1
    then []
    else ("Parallelism set to "
        ⧺ decimal p
        ⧺ ": up to "
        ⧺ decimal p
        ⧺ " worker nodes will be upgraded concurrently per batch; control-plane nodes are always upgraded one at a time.")
      ∷ (if not (is_nil nodes) && ltb workers p
          then ("spec.parallelism ("
              ⧺ decimal p
              ⧺ ") exceeds the "
              ⧺ decimal workers
              ⧺ " selected worker node(s); batches never hold more than "
              ⧺ decimal (max workers 1)
              ⧺ " node(s).")
            ∷ []
          else [])

-- activeKubernetesUpgrade: the first active plan, its name and its target.
abbrev pub active_kubernetes_upgrade : List KubernetesUpgrade → Option (String × String)
active_kubernetes_upgrade [] = none
active_kubernetes_upgrade (k ∷ plans) =
    if is_active k.status.phase
    then some (k.name, k.spec.kubernetes.version)
    else active_kubernetes_upgrade plans

abbrev or_empty : {A : Type 0} → Answer (List A) → List A
or_empty (given xs) = xs
or_empty (refused e) = []

-- A warning that stands or not.
abbrev warn_if : Bool → String → List String
warn_if true message = message ∷ []
warn_if false message = []

-- ValidateDelete
unfoldable pub validate_delete : TalosUpgrade → Admission
validate_delete t = (
  warn_if (is_active t.status.phase) (
      "Deleting TalosUpgrade '" ⧺ t.name
      ⧺ "' while upgrade is in progress. This may leave nodes in an inconsistent state."),
  none,
)

module _ {S V K : Type 0} (lib : Library) (tables : Tables S V K) (cluster : Cluster) where
  -- The loop of validateOverlaps, from the number of its next call; an error leaves no warning.
  overlap_loop : ℕ → String → List String → List TalosUpgrade → Answer (List String)
  overlap_loop n name current [] = given []
  overlap_loop n name current (plan ∷ plans) =
      let skipped : Answer (List String) = overlap_loop n name current plans in
      let rest : Answer (List String) = overlap_loop (suc n) name current plans in
      if str_eq plan.name name
      then skipped
      else elim (cluster.list_selected_nodes n plan.spec.node_selector) [
        | Selection.invalid_selector e ↦ refused e
        | Selection.list_failed e ↦ refused e
        | Selection.selected nodes ↦
            let both = find_node_intersection current (names_of nodes) in
            elim rest [
              | refused e ↦ refused e
              | given warnings ↦ given (
                  warn_if (not (is_nil both)) (
                    "Detected node overlap with existing plan '"
                    ⧺ plan.name
                    ⧺ "'. The following nodes match both plans: ["
                    ⧺ spaced (shown_overlap both)
                    ⧺ "]. This may cause conflicting upgrades/downgrades if both plans are active.")
                  ++ warnings)
            ]
      ]

  -- validateOverlaps, whose error is only logged.
  unfoldable pub validate_overlaps : TalosUpgrade → List Node → List String
  unfolding overlap_loop
  validate_overlaps t nodes = if is_nil nodes then [] else elim cluster.list_plans [
    | refused e ↦ []
    | given plans ↦ or_empty (overlap_loop 1 t.name (names_of nodes) plans)
  ]

  -- controlPlaneWarnings
  control_plane_warnings : List String
  control_plane_warnings =
      warn_if (length (or_empty cluster.list_control_plane) == 2)
        "The cluster has exactly two control-plane nodes: etcd loses quorum while either one reboots, so the API is unavailable during each control-plane upgrade. Talos 1.13 and newer do not refuse it. Run three or more control-plane nodes."

  -- The policy checks of validate.
  unfoldable pub policy_error : TalosUpgrade → Option String
  policy_error t =
      let mode = t.spec.policy.reboot_mode in
      let placement = t.spec.policy.placement in
      reject_if (not (contains ("" ∷ "default" ∷ "powercycle" ∷ []) mode))
        ("invalid rebootMode '" ⧺ mode ⧺ "'")
      then_check reject_if (not (contains ("" ∷ "hard" ∷ "soft" ∷ []) placement))
          ("invalid placement '" ⧺ placement ⧺ "'")

  -- The upgrade path, where validate checks it.
  unfoldable pub path_verdict : Bool → Selection → TalosUpgrade → List String × Option String
  unfolding validate_upgrade_path
  path_verdict false selection t = ([], none)
  path_verdict true (Selection.invalid_selector e) t = ([], some e)
  path_verdict true selection t =
      validate_upgrade_path tables lib.decimal
        (active_kubernetes_upgrade (or_empty cluster.list_kubernetes_plans)) t.spec.talos.version
        (nodes_of selection)

  -- The checks of validate, in their order; the upgrade path is between the version and the rest.
  unfoldable pub first_error : TalosUpgrade → Option String
  unfolding validate_talos_config_secret validate_version_format
  first_error t =
      validate_talos_config_secret lib
      then_check wrap_text "invalid talos version" (validate_version_format t.spec.talos.version)

  unfoldable pub spec_error : TalosUpgrade → Option String
  unfolding validate_health_checks validate_talosctl_spec policy_error
  spec_error t =
      validate_health_checks lib 0 t.spec.health_checks
      then_check validate_talosctl_spec t.spec.talosctl
      then_check policy_error t

  unfoldable pub run_error : TalosUpgrade → List Node → Option String
  unfolding validate_maintenance_windows parallelism_error validate_hooks
  run_error t nodes =
      wrap_text "spec.maintenanceWindow validation failed"
        (validate_maintenance_windows lib (windows_of t.spec.maintenance))
      then_check parallelism_error lib.decimal t.spec.parallelism nodes
      then_check validate_hooks lib.decimal t.spec.hooks

  -- The warnings between the checks of the specification and those of the run.
  risk_warnings : TalosUpgrade → List String
  unfolding generate_common_warnings control_plane_warnings
  risk_warnings t =
      generate_common_warnings lib t.spec.talos.version t.spec.health_checks t.spec.talosctl.tag
      ++ (warn_if t.spec.policy.force
            "Force upgrade enabled: tuppr skips the etcd check of its cluster health gate. Talos skips its own etcd health and membership checks only on Talos's legacy upgrade API, which talosctl uses when the node or talosctl is older than Talos 1.13. Control-plane nodes are still upgraded one at a time."
          ++ (warn_if t.spec.policy.stage
                "Stage upgrade enabled: it only takes effect on Talos's legacy upgrade API, which talosctl uses when the node or talosctl is older than Talos 1.13."
              ++ (control_plane_warnings
                  ++ (warn_if (str_eq t.spec.policy.reboot_mode "powercycle")
                        "Powercycle reboot mode selected."
                      ++ (warn_if t.spec.policy.debug "Debug mode enabled."
                          ++ (warn_if (str_eq t.spec.policy.placement "soft")
                                "Soft placement preset used."
                              ++ warn_if
                                  (not (is_nil t.spec.silences)
                                    && not cluster.alertmanager_configured)
                                  "spec.silences is configured but the operator has no Alertmanager connection (set silences.* in the Helm chart); no silences will be created."))))))

  -- The error of validate.
  unfoldable pub validation_error : TalosUpgrade → Bool → Option String
  unfolding first_error path_verdict spec_error run_error
  validation_error t check_path =
      let selection = cluster.list_selected_nodes 0 t.spec.node_selector in
      first_error t
      then_check (path_verdict check_path selection t).1
      then_check spec_error t
      then_check run_error t (nodes_of selection)

  -- The warnings of validate, which stand beside an error as far as it came.
  unfoldable pub validation_warnings : TalosUpgrade → Bool → List String
  unfolding first_error path_verdict spec_error run_error validate_overlaps risk_warnings
      parallelism_warnings validate_maintenance_windows
  validation_warnings t check_path =
      let selection = cluster.list_selected_nodes 0 t.spec.node_selector in
      let path = path_verdict check_path selection t in
      let after_windows : List String =
        elim (validate_maintenance_windows lib (windows_of t.spec.maintenance)) [
          | some e ↦ []
          | none ↦
              window_warnings (windows_of t.spec.maintenance)
              ++ elim (parallelism_error lib.decimal t.spec.parallelism (nodes_of selection)) [
                | some e ↦ []
                | none ↦ parallelism_warnings lib.decimal t.spec.parallelism (nodes_of selection)
              ]
        ] in
      validate_overlaps t (nodes_of selection) ++ elim (first_error t) [
        | some e ↦ []
        | none ↦ path.0 ++ elim (path.1 then_check spec_error t) [
          | some e ↦ []
          | none ↦ risk_warnings t ++ after_windows
        ]
      ]

  -- validate
  unfoldable pub validate : TalosUpgrade → Bool → Admission
  unfolding validation_error validation_warnings
  validate t check_path = (validation_warnings t check_path, validation_error t check_path)

  -- ValidateCreate
  unfoldable pub validate_create : TalosUpgrade → Admission
  unfolding validate
  validate_create t = validate t true

  -- sameNodeSelector
  unfoldable pub same_node_selector : Option Selector → Option Selector → Bool
  same_node_selector a b = elim (cluster.selector_text a) [
    | refused e ↦ cluster.same_selector a b
    | given s ↦ elim (cluster.selector_text b) [
      | refused e ↦ cluster.same_selector a b
      | given t ↦ str_eq s t
    ]
  ]

  -- ValidateUpdate, where `same` is whether the specs are deeply equal.
  unfoldable pub validate_update : TalosUpgrade → TalosUpgrade → Bool → Admission
  unfolding validate validate_update_in_progress same_node_selector
  validate_update old t same =
      elim (validate_update_in_progress lib old.status.conditions old.status.phase same) [
        | some e ↦ ([], some e)
        | none ↦ validate t (
            not (str_eq old.spec.talos.version t.spec.talos.version)
            || not (same_node_selector old.spec.node_selector t.spec.node_selector))
      ]
