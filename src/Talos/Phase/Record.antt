-- ===== src/Talos/Phase/Record.antt =====
-- What the history of runs records.
use tuppr.Prelude.{String, some, [], ◌∷◌, ◌≡◌, refl}
use tuppr.Api.Phase.{JobPhase}
use tuppr.Api.Talos.{Time, TalosUpgradeStatus}
use tuppr.Audit.{}
use tuppr.Audit.History.{}
use tuppr.Talos.Status.{Update, apply_updates}
use tuppr.Talos.Phase.{apply_phase_audit_fields, terminal_updates}

-- A run that returns to Pending between two batches and completes from there leaves no entry in the
-- history: with the start cleared by the first transition, the second adds only the completion time.
pub apply_phase_audit_fields_lost :
    (s : TalosUpgradeStatus) (now later : Time) (target : String)
    → s.phase ≡ JobPhase.upgrading
    → let waiting : TalosUpgradeStatus =
        record (apply_updates (apply_phase_audit_fields s JobPhase.pending now target) s) {
          phase = JobPhase.pending;
        } in
      apply_phase_audit_fields waiting JobPhase.completed later target
      ≡ Update.completed_at (some later) ∷ []
unfolding apply_phase_audit_fields terminal_updates
apply_phase_audit_fields_lost s now later target h = rw h refl
