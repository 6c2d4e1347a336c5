-- ===== src/Talos/Recovery.antt =====
-- processRebootingNodes (internal/controller/talosupgrade/upgrade.go): the reboot wait is resumed from
-- status when the job is gone.
use tuppr.Prelude.{
  ◌*◌, String, ◌||◌, Option, none, some, List, [], ◌∷◌, length, is_nil, if◌then◌else◌,
}
use tuppr.Api.Phase.{JobPhase}
use tuppr.Api.Talos.{NodeRebootStatus}
use tuppr.Maintenance.{second}
use tuppr.Talos.Jobs.{is_completed_node, is_failed_node, timeout_message, rebooting_message}
use tuppr.Talos.Outcome.{complete_node_upgrade, process_single_job_failure}
use tuppr.Talos.Phase.{set_phase_with_nodes, set_phase_with_updates}
use tuppr.Talos.Reboot.{clear_reboot_tracking, reboot_deadline_expired}
use tuppr.Talos.Verify.{verify_node_upgrade}
use tuppr.Talos.World.{Env, M, ⊤, ok, err, pure, status, upgrade, requeue, ◌>>=◌, ◌>>◌}

module _ (env : Env) where
  -- One entry: `some` name where the node keeps waiting. Failures to record are only logged.
  resume_entry : String → M (Option String)
  unfolding clear_reboot_tracking verify_node_upgrade process_single_job_failure
      complete_node_upgrade reboot_deadline_expired
  resume_entry name = do
    s ← status
    if is_completed_node s name || is_failed_node s name
        then (do clear_reboot_tracking env name; pure none)
        else (do
          r ← verify_node_upgrade env name
          elim r [
            | err e ↦ do process_single_job_failure env name e.text; pure none
            | ok ready ↦ if ready then (do complete_node_upgrade env name; pure none) else (do
              expired ← reboot_deadline_expired env name
              if expired
                  then (do
                    u ← upgrade
                    process_single_job_failure env name (timeout_message env u)
                    pure none)
                  else pure (some name))
          ])

  -- The loop, over the entries that the pass began with.
  resume_entries : List NodeRebootStatus → M (List String)
  unfolding resume_entry
  resume_entries [] = pure []
  resume_entries (entry ∷ entries) = do
    waits ← resume_entry entry.node_name
    rest ← resume_entries entries
    elim waits [ none ↦ pure rest | some name ↦ pure (name ∷ rest) ]

  -- processRebootingNodes; it returns where no node waits any more.
  unfoldable pub process_rebooting_nodes : M ⊤
  unfolding resume_entries set_phase_with_updates
  process_rebooting_nodes = do
    s ← status
    waiting ← resume_entries s.rebooting_nodes
    if is_nil waiting then pure tt else do
      set_phase_with_nodes env JobPhase.rebooting waiting (rebooting_message env (length waiting))
      requeue (30 * second)
