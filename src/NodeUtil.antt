-- ===== src/NodeUtil.antt =====
-- internal/controller/nodeutil/nodes.go: node addresses, target versions, endpoints and job names.
-- Reading the cluster and drawing a UUID are arguments. `ErrInvalidNodeSelector` and the selector
-- itself belong to the API library.
pub mod Names
pub mod NodeIp
use tuppr.Prelude.{◌-◌, String, Option, none, some, List, [], ◌∷◌, if◌then◌else◌}
use Prim.Native.String
use tuppr.Prelude.Text.{before, has_prefix, trim_prefix}
use tuppr.Prelude.Match.{skip_version, skip_others}
use tuppr.Api.Cluster.{Address, AddressType, Node, get_or_empty, is_empty}

abbrev pub version_annotation : String
version_annotation = "tuppr.home-operations.com/version"

-- TargetTalosVersion
unfoldable pub target_talos_version : Node → String → String
target_talos_version node plan_version =
    let v = get_or_empty version_annotation node.annotations in
    if is_empty v then plan_version else v

-- What follows `^Talos \(?` of talosVersionRegexp.
talos_version_at : String → String
talos_version_at s = elim (skip_version s) [
  | none ↦ ""
  | some rest ↦
      before s (String.len s - String.len (skip_others (String.len rest) " \t\n\r\u{c})" rest))
]

-- TalosVersionFromOSImage
unfoldable pub talos_version_from_os_image : String → String
unfolding talos_version_at
talos_version_from_os_image image =
    if has_prefix image "Talos ("
    then talos_version_at (trim_prefix image "Talos (")
    else (if has_prefix image "Talos " then talos_version_at (trim_prefix image "Talos ") else "")

-- The loop of GetNodeIP over the addresses, with `externalIP` so far; the empty string is "none".
scan_addresses : String → List Address → Option String
scan_addresses external [] = if is_empty external then none else some external
scan_addresses external (a ∷ rest) = elim a.kind [
  | AddressType.internal_ip ↦ some a.address
  | AddressType.external_ip ↦ scan_addresses a.address rest
  | AddressType.other_address ↦ scan_addresses external rest
]

-- GetNodeIP; `none` is its error.
unfoldable pub get_node_ip : Node → Option String
unfolding scan_addresses
get_node_ip node = scan_addresses "" node.addresses
