-- ===== src/Talos/Outcome/Durable.antt =====
-- A node whose upgrade began stays in the stored status until its outcome is in it, whichever of
-- the writes fail.
pub mod Steps
pub mod Upgrades
use tuppr.Prelude.{String, Bool, true, ◌||◌, ◌≡◌, ◌⊎◌, str_eq, contains, contains_func}
use tuppr.Api.Talos.{TalosUpgradeStatus}
use tuppr.Talos.Reboot.{is_tracked}
use tuppr.Talos.World.{World}

-- Whether the status holds an outcome of the node, and whether it knows the node at all.
abbrev pub is_recorded : String → TalosUpgradeStatus → Bool
is_recorded name s =
    contains s.completed_nodes name || contains_func (λ n. str_eq n.node_name name) s.failed_nodes

abbrev pub is_accounted : String → TalosUpgradeStatus → Bool
is_accounted name s = is_recorded name s || is_tracked name s.rebooting_nodes

-- The stored status knows the node, what it holds of outcomes the object in memory holds too, and
-- the object still waits for the node unless an outcome is stored.
pub record IsDurable (name : String) (w : World) : Type 0 where
  pub accounted : is_accounted name w.stored ≡ true
  pub completed :
      contains w.stored.completed_nodes name ≡ true
      → contains w.upgrade.status.completed_nodes name ≡ true
  pub failed :
      contains_func (λ n. str_eq n.node_name name) w.stored.failed_nodes ≡ true
      → contains_func (λ n. str_eq n.node_name name) w.upgrade.status.failed_nodes ≡ true
  pub waiting :
      (is_tracked name w.upgrade.status.rebooting_nodes ≡ true) ⊎ (is_recorded name w.stored ≡ true)
