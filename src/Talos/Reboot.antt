-- ===== src/Talos/Reboot.antt =====
-- The reboot wait kept in status (internal/controller/talosupgrade/controller.go): trackRebootingNodes,
-- clearRebootTracking, rebootDeadlineExpired, and addCompletedNode and addFailedNode beside them;
-- nodeUpgradeTimeout of jobs.go.
pub mod Deadlines
use tuppr.Prelude.{
  ℕ, ◌+◌, ◌*◌, String, Bool, false, Option, none, some, List, [], ◌∷◌, ◌++◌, length, ltb, str_eq,
  ◌==◌, contains_func, is_none, if◌then◌else◌,
}
use tuppr.Api.Talos.{Time, Duration, TalosUpgrade, NodeRebootStatus, NodeUpgradeStatus}
use tuppr.Maintenance.{minute}
use tuppr.Talos.Status.{Update}
use tuppr.Talos.World.{
  Env, M, Error, pure, ask, status, upgrade, modify_status, update_status, ◌>>=◌, ◌>>◌,
}

-- TalosJobDefaultTimeout
abbrev pub default_timeout : Duration
default_timeout = 30 * minute

-- nodeUpgradeTimeout
abbrev pub node_upgrade_timeout : TalosUpgrade → Duration
node_upgrade_timeout u = elim u.spec.policy.timeout [ none ↦ default_timeout | some d ↦ d ]

abbrev pub is_tracked : String → List NodeRebootStatus → Bool
is_tracked name entries = contains_func (λ e. str_eq e.node_name name) entries

-- The loop of trackRebootingNodes.
unfoldable pub track_loop : Time → List String → List NodeRebootStatus → List NodeRebootStatus
track_loop deadline [] entries = entries
track_loop deadline (name ∷ names) entries =
    if is_tracked name entries
    then track_loop deadline names entries
    else track_loop deadline names
        (entries ++ (record { node_name = name; deadline = deadline } ∷ []))

-- The entries without the first that names the node; `none` where there is none.
unfoldable pub without_first : String → List NodeRebootStatus → Option (List NodeRebootStatus)
without_first name [] = none
without_first name (e ∷ es) =
    let rest = without_first name es in
    if str_eq e.node_name name then some es else elim rest [ none ↦ none | some r ↦ some (e ∷ r) ]

-- The deadline that the first entry for the node holds.
unfoldable pub tracked_deadline : String → List NodeRebootStatus → Option Time
tracked_deadline name [] = none
tracked_deadline name (e ∷ es) =
    if str_eq e.node_name name then some e.deadline else tracked_deadline name es

module _ (env : Env) where
  -- addCompletedNode
  unfoldable pub add_completed_node : String → M (Option Error)
  add_completed_node name = do
    modify_status (λ s. record s { completed_nodes = s.completed_nodes ++ (name ∷ []) })
    s ← status
    update_status env (Update.completed_nodes s.completed_nodes ∷ [])

  -- addFailedNode
  unfoldable pub add_failed_node : NodeUpgradeStatus → M (Option Error)
  add_failed_node entry = do
    modify_status (λ s. record s { failed_nodes = s.failed_nodes ++ (entry ∷ []) })
    s ← status
    update_status env (Update.failed_nodes s.failed_nodes ∷ [])

  -- Both writers of RebootingNodes end so.
  unfoldable pub save_rebooting : List NodeRebootStatus → M (Option Error)
  save_rebooting entries = do
    modify_status (λ s. record s { rebooting_nodes = entries })
    update_status env (Update.rebooting_nodes entries ∷ [])

  -- trackRebootingNodes; entries are only added, so `changed` is that there are more of them.
  unfoldable pub track_rebooting_nodes : List String → M (Option Error)
  unfolding track_loop save_rebooting
  track_rebooting_nodes names = do
    now ← ask env.now
    u ← upgrade
    let entries = track_loop (now + node_upgrade_timeout u) names u.status.rebooting_nodes
    if length entries == length u.status.rebooting_nodes then pure none else save_rebooting entries

  -- clearRebootTracking
  unfoldable pub clear_reboot_tracking : String → M (Option Error)
  unfolding without_first save_rebooting
  clear_reboot_tracking name = do
    s ← status
    elim (without_first name s.rebooting_nodes) [
      | none ↦ pure none
      | some entries ↦ save_rebooting entries
    ]

  -- rebootDeadlineExpired; the clock is read only for a tracked node.
  unfoldable pub reboot_deadline_expired : String → M Bool
  unfolding tracked_deadline
  reboot_deadline_expired name = do
    s ← status
    elim (tracked_deadline name s.rebooting_nodes) [
      | none ↦ pure false
      | some deadline ↦ do now ← ask env.now; pure (ltb deadline now)
    ]
