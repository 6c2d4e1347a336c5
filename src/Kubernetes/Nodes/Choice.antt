-- ===== src/Kubernetes/Nodes/Choice.antt =====
-- Which node findControllerNode picks.
use tuppr.Prelude.{
  ◌≡◌, refl, arith, inl, inr, String, false, Option, none, some, List, [], ◌∷◌, All, str_eq,
  if◌then◌else◌, Option-cases,
}
use tuppr.Api.Cluster.{Node, is_empty}
use tuppr.NodeUtil.{get_node_ip}
use tuppr.Talos.Nodes.{is_control_plane}
use tuppr.Kubernetes.Nodes.{controller_loop}

-- A control-plane node with an address.
pub record Controller : Type 0 where
  pub name : String
  pub ip : String
  pub version : String

add_controller : Node → Option String → List Controller → List Controller
add_controller node none cs = cs
add_controller node (some ip) cs =
    record { name = node.name; ip = ip; version = node.kubelet_version } ∷ cs

-- The control-plane nodes with an address, in the order of the list.
abbrev pub controllers : List Node → List Controller
unfolding add_controller
controllers [] = []
controllers (node ∷ nodes) =
    if is_control_plane node
    then add_controller node (get_node_ip node) (controllers nodes)
    else controllers nodes

-- The first one that is not at the target.
abbrev pub first_lagging : String → List Controller → Option Controller
first_lagging target [] = none
first_lagging target (c ∷ cs) = if str_eq c.version target then first_lagging target cs else some c

abbrev pub first_controller : List Controller → Option Controller
first_controller [] = none
first_controller (c ∷ cs) = some c

abbrev pub or_option : Option Controller → Option Controller → Option Controller
or_option none d = d
or_option (some c) d = some c

abbrev named : Option Controller → Option (String × String)
named none = none
named (some c) = some (c.name, c.ip)

-- The choice: a lagging one if there is one, else any.
abbrev pub choose : String → List Controller → Option (String × String)
choose target cs = named (or_option (first_lagging target cs) (first_controller cs))

abbrev IsNamed : Node → Type 0
IsNamed node = is_empty node.name ≡ false

-- With a fallback, the loop looks for a lagging one only.
loop_fallback :
    (target : String) (nodes : List Node) (name ip : String)
    → is_empty name ≡ false
    → controller_loop target nodes name ip
      ≡ named (
          or_option
            (first_lagging target (controllers nodes))
            (some (record { name = name; ip = ip; version = target })))
unfolding controller_loop add_controller
loop_fallback target [] name ip h = ground arith
loop_fallback target (node ∷ nodes) name ip h = ground (arith, loop_fallback target nodes name ip h)

-- On nodes with names, findControllerNode's loop picks the first control-plane node with an address
-- that is not at the target, or else the first control-plane node with an address.
pub controller_loop-choose :
    (target : String) (nodes : List Node)
    → All IsNamed nodes
    → controller_loop target nodes "" "" ≡ choose target (controllers nodes)
unfolding controller_loop add_controller
controller_loop-choose target [] h = refl
controller_loop-choose target (node ∷ nodes) h = elim (Option-cases (get_node_ip node)) [
  | inl e ↦ ground (arith, controller_loop-choose target nodes h.1, e)
  | inr (ip, e) ↦ ground (
    arith,
    controller_loop-choose target nodes h.1,
    e,
    loop_fallback target nodes node.name ip h.0,
  )
]
