-- ===== src/Webhook/Compatibility.antt =====
-- The upgrade path of a plan (internal/webhook/talosupgrade/compatibility.go). The semver library and
-- Talos's compatibility tables come as `Tables`; what is parsed once per distinct target is parsed
-- anew, and a set of keys in their order is a list.
pub mod Path
mod Reads
pub mod Passes
use tuppr.Prelude.{
  ℕ, ◌-◌, ◌*◌, ◌≡◌, String, Bool, true, false, not, ◌&&◌, ◌||◌, Option, none, some, List, [], ◌∷◌,
  ◌++◌, ltb, leb, str_eq, str_lt, contains, take, length, map, ◌⧺◌, is_nil, if◌then◌else◌,
}
use tuppr.Prelude.Text.{trim_prefix}
use tuppr.Api.Cluster.{Node, is_empty, get_or_empty}
use tuppr.NodeUtil.{version_annotation, target_talos_version, talos_version_from_os_image}
use tuppr.Talos.Health.{join}
use tuppr.Webhook.Validation.{Answer, given, refused}
use tuppr.Webhook.Version.{validate_version_format}

-- A parsed version (semver), one that the tables know, and a Kubernetes version.
pub record Tables (S V K : Type 0) : Type 0 where
  pub strict_new_version : String → Answer S
  pub major : S → String
  pub minor : S → String
  pub greater_than : S → S → Bool
  pub parse_talos_version : String → Answer V
  pub upgradeable_from : V → V → Option String
  pub parse_kubernetes_version : String → Answer K
  pub supported_with : K → V → Option String

-- maxListedNodes
abbrev pub max_listed_nodes : ℕ
max_listed_nodes = 3

-- slices.Sort on names.
abbrev pub insert_name : String → List String → List String
insert_name x [] = x ∷ []
insert_name x (y ∷ ys) = let rest = insert_name x ys in if str_lt y x then y ∷ rest else x ∷ y ∷ ys

abbrev pub sort_names : List String → List String
sort_names [] = []
sort_names (x ∷ xs) = insert_name x (sort_names xs)

-- A map from a text to names, with its keys as they came.
abbrev pub NamesBy : Type 0
NamesBy = List (String × List String)

-- `m[key] = append(m[key], name)`
abbrev pub append_name : String → String → NamesBy → NamesBy
append_name key name [] = (key, name ∷ []) ∷ []
append_name key name ((k, names) ∷ rest) =
    let later = append_name key name rest in
    if str_eq k key then (k, names ++ (name ∷ [])) ∷ rest else (k, names) ∷ later

abbrev pub names_at : String → NamesBy → List String
names_at key [] = []
names_at key ((k, names) ∷ rest) =
    let later = names_at key rest in if str_eq k key then names else later

-- `slices.Sorted(maps.Keys(m))`
abbrev pub sorted_keys : NamesBy → List String
sorted_keys m = sort_names (map (λ (k, names). k) m)

-- What the loop of validateUpgradePath gathers.
pub record Findings : Type 0 where
  pub problems : NamesBy
  pub downgrades : NamesBy
  pub unchecked : List String

abbrev pub no_findings : Findings
no_findings = record { problems = []; downgrades = []; unchecked = [] }

abbrev pub add_problem : String → String → Findings → Findings
add_problem reason name f = record f { problems = append_name reason name f.problems }

-- `append` to the targets, where it is new.
abbrev pub add_unchecked : String → Findings → Findings
add_unchecked target f =
    if contains f.unchecked target then f else record f { unchecked = f.unchecked ++ (target ∷ []) }

-- A node as a message shows it.
abbrev pub shown_name : Node → String
shown_name node =
    if is_empty (get_or_empty version_annotation node.annotations)
    then node.name
    else node.name ⧺ " (pinned by " ⧺ version_annotation ⧺ ")"

-- listNodes
unfoldable pub list_nodes : (ℕ → String) → List String → String
list_nodes decimal names =
    if ltb max_listed_nodes (length names)
    then join (take max_listed_nodes (sort_names names))
      ⧺ " and "
      ⧺ decimal (length names - max_listed_nodes)
      ⧺ " more"
    else join (sort_names names)

-- The warnings of validateUpgradePath past the loop.
unfoldable pub path_warnings : (ℕ → String) → Findings → List String
unfolding list_nodes
path_warnings decimal f =
    map
      (λ target.
        "Talos " ⧺ target
        ⧺ " is not in the compatibility data this tuppr release was built with; the upgrade path and Kubernetes support were not checked.")
      f.unchecked
    ++ map
        (λ key.
          "Node(s) "
          ⧺ list_nodes decimal (names_at key f.downgrades)
          ⧺ " will be downgraded from Talos "
          ⧺ key
          ⧺ ".")
        (sorted_keys f.downgrades)

-- `strings.Join(reasons, "; ")`
abbrev join_reasons : List String → String
join_reasons [] = ""
join_reasons (r ∷ []) = r
join_reasons (r ∷ rs) = r ⧺ "; " ⧺ join_reasons rs

-- Its error.
unfoldable pub path_error : (ℕ → String) → NamesBy → Option String
unfolding list_nodes
path_error decimal problems =
    if is_nil problems
    then none
    else some (
        "unsupported upgrade: "
        ⧺ join_reasons (
            map
              (λ reason.
                reason ⧺ " (node(s) " ⧺ list_nodes decimal (names_at reason problems) ⧺ ")")
              (sorted_keys problems)))

module _ {S V K : Type 0} (tables : Tables S V K) where
  -- parseTalosVersion
  abbrev pub parse_talos : String → Answer (S × V)
  parse_talos v = elim (tables.strict_new_version (trim_prefix v "v")) [
    | refused e ↦ refused e
    | given sv ↦ elim (tables.parse_talos_version v) [
      | refused e ↦ refused e
      | given version ↦ given (sv, version)
    ]
  ]

  -- talosTarget, where it has no error.
  pub record TalosTarget : Type 0 where
    pub semver : S
    pub version : V
    pub in_tables : Bool

  is_none_text : Option String → Bool
  is_none_text none = true
  is_none_text (some e) = false

  -- Whether the tables know the minor of a version.
  pub is_in_tables : S → V → Bool
  unfolding is_none_text
  is_in_tables sv version =
      elim (parse_talos ("v" ⧺ tables.major sv ⧺ "." ⧺ tables.minor sv ⧺ ".0-tuppr.probe")) [
        | refused e ↦ false
        | given (s, probe) ↦ is_none_text (tables.upgradeable_from version probe)
      ]

  -- parseTalosTarget
  unfoldable pub parse_talos_target : String → Answer TalosTarget
  unfolding is_in_tables validate_version_format
  parse_talos_target target = elim (validate_version_format target) [
    | some e ↦ refused e
    | none ↦ elim (parse_talos target) [
      | refused e ↦ refused e
      | given (sv, version) ↦
          given (record { semver = sv; version = version; in_tables = is_in_tables sv version })
    ]
  ]

  -- One round of the loop over the Kubernetes versions of a node.
  unfoldable pub check_version : V → String → String → Findings → Findings
  check_version version name kube f =
      if is_empty kube then f else elim (tables.parse_kubernetes_version kube) [
        | refused e ↦ f
        | given k ↦ elim (tables.supported_with k version) [
          | none ↦ f
          | some e ↦ add_problem e name f
        ]
      ]

  -- The loop.
  unfoldable pub check_kubernetes : V → String → List String → Findings → Findings
  unfolding check_version
  check_kubernetes version name [] f = f
  check_kubernetes version name (kube ∷ kubes) f =
      check_kubernetes version name kubes (check_version version name kube f)

  -- The kubelet's version, and that of the active KubernetesUpgrade if it is another.
  abbrev pub kubernetes_versions : Node → String → List String
  kubernetes_versions node kube_target =
      node.kubelet_version
      ∷ (if is_empty kube_target || str_eq kube_target node.kubelet_version
          then []
          else kube_target ∷ [])

  -- What the Talos version path of a node adds, on the error of the tables if there is one.
  unfoldable pub add_path :
      String → String → TalosTarget → S → String → Findings → Option String → Findings
  add_path current target tgt host_semver name g (some e) = add_problem e name g
  add_path current target tgt host_semver name g none =
      if tables.greater_than host_semver tgt.semver
      then record g { downgrades = append_name (current ⧺ " to " ⧺ target) name g.downgrades }
      else g

  -- The Talos version path of a node.
  unfoldable pub check_path : String → String → TalosTarget → S × V → String → Findings → Findings
  unfolding add_path
  check_path current target tgt (host_semver, host) name f =
      if tgt.in_tables
      then add_path current target tgt host_semver name f (tables.upgradeable_from tgt.version host)
      else add_path current target tgt host_semver name (add_unchecked target f) none

  -- The round of the loop on a target that could be parsed, on the version of the node.
  unfoldable pub check_host :
      Node → String → String → String → TalosTarget → Findings → Answer (S × V) → Findings
  unfolding check_path check_kubernetes
  check_host node kube_target current target tgt f (refused e) = f
  check_host node kube_target current target tgt f (given host) =
      let g = check_path current target tgt host (shown_name node) f in
      if tgt.in_tables
      then check_kubernetes tgt.version (shown_name node) (kubernetes_versions node kube_target) g
      else g

  -- The round on the target.
  unfoldable pub check_target :
      Node → String → String → String → Findings → Answer TalosTarget → Findings
  unfolding check_host
  check_target node kube_target current target f (refused e) =
      add_problem ("invalid target version \"" ⧺ target ⧺ "\": " ⧺ e) (shown_name node) f
  check_target node kube_target current target f (given tgt) =
      check_host node kube_target current target tgt f (parse_talos current)

  -- One round of the loop of validateUpgradePath.
  unfoldable pub check_node : String → String → Node → Findings → Findings
  unfolding check_target parse_talos_target talos_version_from_os_image target_talos_version
  check_node plan_version kube_target node f =
      let current = talos_version_from_os_image node.os_image in
      let target = target_talos_version node plan_version in
      if is_empty current || str_eq current target
      then f
      else check_target node kube_target current target f (parse_talos_target target)

  -- The loop of validateUpgradePath.
  unfoldable pub check_nodes : String → String → List Node → Findings → Findings
  unfolding check_node
  check_nodes plan_version kube_target [] f = f
  check_nodes plan_version kube_target (node ∷ nodes) f =
      check_nodes plan_version kube_target nodes (check_node plan_version kube_target node f)

  -- validateUpgradePath on the active KubernetesUpgrade, its name and its target, if there is one.
  unfoldable pub validate_upgrade_path :
      (ℕ → String) → Option (String × String) → String → List Node → List String × Option String
  unfolding check_nodes path_warnings path_error
  validate_upgrade_path decimal none plan_version nodes =
      let f = check_nodes plan_version "" nodes no_findings in
      (path_warnings decimal f, path_error decimal f.problems)
  validate_upgrade_path decimal (some (name, kube_target)) plan_version nodes =
      let f = check_nodes plan_version kube_target nodes no_findings in
      (
        ("KubernetesUpgrade '" ⧺ name
              ⧺ "' is in progress; Kubernetes support was checked against its target " ⧺ kube_target
              ⧺ " as well as the running kubelets.")
            ∷ path_warnings decimal f,
        path_error decimal f.problems,
      )
