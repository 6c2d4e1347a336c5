-- ===== src/NodeUtil/NodeIp.antt =====
-- GetNodeIP against an order of preference.
use tuppr.Prelude.{String, ◌≡◌, refl, Option, none, some, List, [], ◌∷◌, if◌then◌else◌, arith}
use tuppr.Api.Cluster.{Address, AddressType, Node, is_empty}
use tuppr.NodeUtil.{scan_addresses, get_node_ip}

-- The first InternalIP, if the list has one.
abbrev pub first_internal : List Address → Option String
first_internal [] = none
first_internal (a ∷ rest) = elim a.kind [
  | AddressType.internal_ip ↦ some a.address
  | AddressType.external_ip ↦ first_internal rest
  | AddressType.other_address ↦ first_internal rest
]

-- The last ExternalIP, or `default` if the list has none.
abbrev pub last_external : String → List Address → String
last_external default [] = default
last_external default (a ∷ rest) = elim a.kind [
  | AddressType.internal_ip ↦ last_external default rest
  | AddressType.external_ip ↦ last_external a.address rest
  | AddressType.other_address ↦ last_external default rest
]

abbrev pub preferred : Option String → String → Option String
preferred (some ip) external = some ip
preferred none external = if is_empty external then none else some external

scan_addresses_lem :
    (external : String) (l : List Address)
    → scan_addresses external l ≡ preferred (first_internal l) (last_external external l)
unfolding scan_addresses
scan_addresses_lem external [] = refl
scan_addresses_lem external (a ∷ rest) =
    ground (arith, scan_addresses_lem external rest, scan_addresses_lem a.address rest)

-- GetNodeIP gives the first InternalIP whatever stands before it, else the last ExternalIP, unless
-- that is empty, and fails only where neither is there.
pub get_node_ip_lem :
    (n : Node)
    → get_node_ip n ≡ preferred (first_internal n.addresses) (last_external "" n.addresses)
unfolding get_node_ip
get_node_ip_lem n = scan_addresses_lem "" n.addresses
