-- ===== src/Talos/Verify.antt =====
-- Whether a node came back at its target version: verifyNodeUpgrade, and nodeNeedsUpgrade
-- (internal/controller/talosupgrade/upgrade.go).
pub mod Verdict
use tuppr.Prelude.{String, Bool, true, false, not, Option, none, some, str_eq, ◌⧺◌, if◌then◌else◌}
use tuppr.Api.Cluster.{Node}
use tuppr.NodeUtil.{get_node_ip, target_talos_version}
use tuppr.Talos.Nodes.{get_node}
use tuppr.Talos.World.{
  Env, M, Result, ok, err, Error, ErrorKind, wrap, plain_error, is_transient, pure, ask, upgrade,
  ◌>>=◌,
}

-- nodeVersionMismatchError
abbrev pub version_mismatch : String → String → String → Error
version_mismatch name current target = record {
  kind = ErrorKind.version_mismatch current target;
  text = "node " ⧺ name ⧺ " version mismatch: current=" ⧺ current ⧺ ", target=" ⧺ target;
}

module _ (env : Env) where
  -- The version that the Talos API reports, against the target.
  compare_version : String → String → Result String → Result Bool
  compare_version name target (err e) =
      if is_transient e
      then ok false
      else err (wrap ("failed to get current version from Talos for " ⧺ name) e)
  compare_version name target (ok current) =
      if str_eq current target then ok true else err (version_mismatch name current target)

  -- verifyNodeUpgrade past the reads of the node and its address.
  verify_at : String → String → String → M (Result Bool)
  unfolding compare_version
  verify_at name ip target = do
    not_ready ← ask (λ n. env.check_node_ready n ip)
    elim not_ready [
      | some e ↦ if is_transient e then pure (ok false) else pure (err e)
      | none ↦ do v ← ask (λ n. env.get_node_version n ip); pure (compare_version name target v)
    ]

  -- verifyNodeUpgrade
  unfoldable pub verify_node_upgrade : String → M (Result Bool)
  unfolding verify_at target_talos_version get_node_ip
  verify_node_upgrade name = do
    u ← upgrade
    r ← get_node env name
    elim r [
      | err e ↦ pure (err (wrap "failed to get node" e))
      | ok node ↦ elim (get_node_ip node) [
        | none ↦ pure (err (plain_error ("failed to get node IP for " ⧺ name)))
        | some ip ↦ verify_at name ip (target_talos_version node u.spec.talos.version)
      ]
    ]

  -- nodeNeedsUpgrade
  unfoldable pub node_needs_upgrade : Node → String → M (Result Bool)
  unfolding target_talos_version get_node_ip
  node_needs_upgrade node plan_version = elim (get_node_ip node) [
    | none ↦ pure (err (plain_error ("failed to get node IP for " ⧺ node.name)))
    | some ip ↦ do
      v ← ask (λ n. env.get_node_version n ip)
      elim v [
        | err e ↦ pure (err (wrap ("failed to get current version for node " ⧺ node.name) e))
        | ok current ↦ pure (ok (not (str_eq current (target_talos_version node plan_version))))
      ]
  ]
