-- ===== src/Talos/Nodes.antt =====
-- The node objects that the controller reads and marks: internal/controller/talosupgrade/nodes.go,
-- and getSortedNodes of upgrade.go. `retry.RetryOnConflict` belongs to client-go: the answers are
-- those of its last attempt, since an attempt that conflicts leaves nothing behind.
use tuppr.Prelude.{
  String, Bool, true, false, not, ◌&&◌, Option, none, some, List, [], ◌∷◌, str_eq, str_lt, ◌⧺◌,
  contains_func, if◌then◌else◌,
}
use tuppr.Api.Cluster.{Node, get_or_empty, has_key, is_empty}
use tuppr.Api.Talos.{Selector}
use tuppr.Talos.World.{
  Env, M, ⊤, Result, ok, err, Error, Effect, wrap, wrap_option, is_not_found, pure, ask, write,
  upgrade, ◌>>=◌, ◌>>◌,
}

abbrev pub upgrading_label : String
upgrading_label = "tuppr.home-operations.com/upgrading"

abbrev pub outdated_taint : String
outdated_taint = "tuppr.home-operations.com/outdated"

abbrev pub control_plane_label : String
control_plane_label = "node-role.kubernetes.io/control-plane"

abbrev pub is_control_plane : Node → Bool
is_control_plane node = has_key control_plane_label node.labels

-- `node.Labels[constants.NodeUpgradingLabel] != ""`
abbrev pub is_labelled : Node → Bool
is_labelled node = not (is_empty (get_or_empty upgrading_label node.labels))

abbrev pub is_tainted : Node → Bool
is_tainted node = contains_func (λ t. str_eq t.key outdated_taint) node.taints

-- The comparison of getSortedNodes: the controller's node first, then by name.
abbrev pub comes_before : String → Node → Node → Bool
comes_before controller a b =
    if not (is_empty controller) && str_eq a.name controller
    then true
    else (if not (is_empty controller) && str_eq b.name controller
        then false
        else str_lt a.name b.name)

-- `slices.SortFunc`, as the insertion of each node before the first that it precedes.
abbrev pub insert_node : (Node → Node → Bool) → Node → List Node → List Node
insert_node before x [] = x ∷ []
insert_node before x (y ∷ ys) =
    let rest = insert_node before x ys in if before x y then x ∷ y ∷ ys else y ∷ rest

abbrev pub sort_nodes : (Node → Node → Bool) → List Node → List Node
sort_nodes before [] = []
sort_nodes before (x ∷ xs) = insert_node before x (sort_nodes before xs)

module _ (env : Env) where
  abbrev pub get_node : String → M (Result Node)
  get_node name = ask (λ n. env.get_node n name)

  -- getSortedNodes
  unfoldable pub get_sorted_nodes : Option Selector → M (Result (List Node))
  get_sorted_nodes selector = do
    r ← ask (λ n. env.list_nodes n selector)
    elim r [
      | err e ↦ pure (err e)
      | ok nodes ↦ pure (ok (sort_nodes (comes_before env.config.controller_node_name) nodes))
    ]

  -- addNodeUpgradingLabel
  unfoldable pub add_node_upgrading_label : String → M (Option Error)
  add_node_upgrading_label name = do
    r ← get_node name
    elim r [
      | err e ↦ pure (some (wrap ("failed to add upgrading label to node " ⧺ name) e))
      | ok node ↦ if str_eq (get_or_empty upgrading_label node.labels) "true" then pure none else do
        failed ← write env (Effect.add_label name)
        pure (wrap_option ("failed to add upgrading label to node " ⧺ name) failed)
    ]

  -- removeNodeUpgradingLabel
  unfoldable pub remove_node_upgrading_label : String → M (Option Error)
  remove_node_upgrading_label name = do
    r ← get_node name
    elim r [
      | err e ↦
          if is_not_found e
          then pure none
          else pure (some (wrap ("failed to remove upgrading label from node " ⧺ name) e))
      | ok node ↦ if not (is_labelled node) then pure none else do
        failed ← write env (Effect.remove_label name)
        pure (wrap_option ("failed to remove upgrading label from node " ⧺ name) failed)
    ]

  -- addNodeOutdatedTaint
  unfoldable pub add_node_outdated_taint : String → M (Option Error)
  add_node_outdated_taint name = do
    r ← get_node name
    elim r [
      | err e ↦ pure (some (wrap ("failed to add outdated taint to node " ⧺ name) e))
      | ok node ↦ if is_tainted node then pure none else do
        failed ← write env (Effect.add_taint name)
        pure (wrap_option ("failed to add outdated taint to node " ⧺ name) failed)
    ]

  -- removeNodeOutdatedTaint
  unfoldable pub remove_node_outdated_taint : String → M (Option Error)
  remove_node_outdated_taint name = do
    r ← get_node name
    elim r [
      | err e ↦
          if is_not_found e
          then pure none
          else pure (some (wrap ("failed to remove outdated taint from node " ⧺ name) e))
      | ok node ↦ if not (is_tainted node) then pure none else do
        failed ← write env (Effect.remove_taint name)
        pure (wrap_option ("failed to remove outdated taint from node " ⧺ name) failed)
    ]

  -- clearOutdatedTaints
  remove_taints : List Node → M ⊤
  unfolding remove_node_outdated_taint
  remove_taints [] = pure tt
  remove_taints (node ∷ nodes) = do remove_node_outdated_taint node.name; remove_taints nodes

  unfoldable pub clear_outdated_taints : M ⊤
  unfolding get_sorted_nodes remove_taints
  clear_outdated_taints = do
    u ← upgrade
    r ← get_sorted_nodes u.spec.node_selector
    elim r [ err e ↦ pure tt | ok nodes ↦ remove_taints nodes ]
