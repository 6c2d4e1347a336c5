-- ===== src/Kubernetes/Nodes.antt =====
-- The nodes that a KubernetesUpgrade reads: findControllerNode, areAllControlPlaneNodesUpgraded and
-- areAllNodesUpgraded (internal/controller/kubernetesupgrade/upgrade.go).
pub mod Choice
use tuppr.Prelude.{
  String, Bool, true, false, not, Option, none, some, List, [], ◌∷◌, str_eq, is_nil, if◌then◌else◌,
}
use tuppr.Api.Cluster.{Node, is_empty}
use tuppr.NodeUtil.{get_node_ip}
use tuppr.Talos.Nodes.{is_control_plane}
use tuppr.Talos.World.{Result, ok, err, wrap, plain_error}
use tuppr.Kubernetes.World.{Env, M, pure, ask, ◌>>=◌}

-- The end of findControllerNode, on the name and address of the fallback.
abbrev pub fallback_controller : String → String → Option (String × String)
fallback_controller name ip = if is_empty name then none else some (name, ip)

-- The loop of findControllerNode over the nodes, with the fallback so far.
unfoldable pub controller_loop : String → List Node → String → String → Option (String × String)
unfolding get_node_ip
controller_loop target [] name ip = fallback_controller name ip
controller_loop target (node ∷ nodes) name ip =
    let next = controller_loop target nodes name ip in
    if not (is_control_plane node) then next else elim (get_node_ip node) [
      | none ↦ next
      | some node_ip ↦
          let rest =
            (if is_empty name
              then controller_loop target nodes node.name node_ip
              else controller_loop target nodes name ip) in
          if str_eq node.kubelet_version target then rest else some (node.name, node_ip)
    ]

-- The loop of areAllControlPlaneNodesUpgraded.
abbrev pub all_at : String → List Node → Bool
all_at target [] = true
all_at target (node ∷ nodes) =
    if str_eq node.kubelet_version target then all_at target nodes else false

-- The loop of areAllNodesUpgraded, which skips a kubelet that has not reported.
abbrev pub all_reporting_at : String → List Node → Bool
all_reporting_at target [] = true
all_reporting_at target (node ∷ nodes) =
    if is_empty node.kubelet_version
    then all_reporting_at target nodes
    else (if str_eq node.kubelet_version target then all_reporting_at target nodes else false)

-- What a list of nodes tells, with the error for an empty one.
abbrev pub checked : String → (List Node → Bool) → List Node → Result Bool
checked message test nodes = if is_nil nodes then err (plain_error message) else ok (test nodes)

module _ (env : Env) where
  -- findControllerNode
  unfoldable pub find_controller_node : String → M (Result (String × String))
  unfolding controller_loop
  find_controller_node target = do
    r ← ask env.list_nodes
    elim r [
      | err e ↦ pure (err (wrap "failed to list nodes" e))
      | ok nodes ↦ elim (controller_loop target nodes "" "") [
        | none ↦ pure (
            err (
              plain_error
                "no controller node found with node-role.kubernetes.io/control-plane label"))
        | some found ↦ pure (ok found)
      ]
    ]

  -- areAllControlPlaneNodesUpgraded
  unfoldable pub are_all_control_plane_nodes_upgraded : String → M (Result Bool)
  are_all_control_plane_nodes_upgraded target = do
    r ← ask env.list_control_plane
    elim r [
      | err e ↦ pure (err (wrap "failed to list control plane nodes" e))
      | ok nodes ↦ pure (checked "no control plane nodes found" (all_at target) nodes)
    ]

  -- areAllNodesUpgraded
  unfoldable pub are_all_nodes_upgraded : String → M (Result Bool)
  are_all_nodes_upgraded target = do
    r ← ask env.list_nodes
    elim r [
      | err e ↦ pure (err (wrap "failed to list nodes" e))
      | ok nodes ↦ pure (checked "no nodes found" (all_reporting_at target) nodes)
    ]
