-- ===== src/Talos/Process/Suspended.antt =====
-- A suspended plan.
use tuppr.Prelude.{String, Bool, true, Option, none, some, [], ◌≡◌, ◌⧺◌}
use tuppr.Api.Phase.{JobPhase}
use tuppr.Api.Cluster.{lookup}
use tuppr.Talos.Annotations.{suspend_annotation, suspend_answer, suspend, handle_suspend_annotation}
use tuppr.Talos.Phase.Patches.{OnlyPatches, OnlyPatches-IsFrame, set_phase_with_updates-OnlyPatches}
use tuppr.Talos.Process.{after_suspension, process_upgrade}
use tuppr.Talos.Silence.{sync_alert_silences}
use tuppr.Talos.Silence.BestEffort.{OnlyPatches-OnlySilences, sync_alert_silences-Only}
use tuppr.Talos.Silence.Rules.{IsEndEffect}
use tuppr.Talos.World.Effects.{Only, Only-IsFrame}
use tuppr.Talos.World.{Env, World, M, ⊤, Outcome, Error, continue, pure, gets, ◌>>=◌}
use tuppr.Talos.World.Keeps.{Keeps, IsFrame, Keeps-stop_with, Keeps-bind}

module _ (env : Env) (sync : Bool → M ⊤) {R : World → World → Type 0} (frame : IsFrame R)
    (patches : (v w : World) → OnlyPatches v w → R v w) where
  after_suspension-Keeps :
      (failed : Option Error)
      → Keeps R (sync true)
      → Keeps R (after_suspension env sync (true, failed))
  unfolding after_suspension
  after_suspension-Keeps failed k = Keeps-bind frame _ _ k (λ a. Keeps-stop_with frame _)

  -- Whatever the write answered, the plan is taken for suspended.
  answered :
      (r : Outcome (Option Error)) (w : World)
      → Keeps R (sync true)
      → let (a, v) = continue r (suspend_answer env) w in
        R w (continue a (after_suspension env sync) v).1
  unfolding suspend_answer pure
  answered (Outcome.stop r) w k = frame.same w
  answered Outcome.hang w k = frame.same w
  answered (Outcome.go (some e)) w k = (after_suspension-Keeps _ k).at w
  answered (Outcome.go none) w k = (after_suspension-Keeps _ k).at w

  suspended_pass :
      (value : String) (w : World)
      → lookup suspend_annotation w.upgrade.annotations ≡ some value
      → Keeps R (sync true)
      → R w (process_upgrade env sync w).1
  unfolding process_upgrade handle_suspend_annotation suspend gets ◌>>=◌
  suspended_pass value w e k = rw e (
      frame.chain
        (patches _ _ (
          (set_phase_with_updates-OnlyPatches env JobPhase.pending "Suspended" []
              ("Controller suspended via annotation (value: " ⧺ value
                ⧺ ") - remove annotation to resume")
              []).at
            w))
        (answered _ _ k))

module _ (env : Env) where
  -- A pass over a plan that bears the suspend annotation has no effect but status patches, as long
  -- as the sync of the alert silences has none: no job, no drain, no cordon, no label or taint.
  pub process_upgrade-OnlyPatches :
      (sync : Bool → M ⊤) (value : String) (w : World)
      → lookup suspend_annotation w.upgrade.annotations ≡ some value
      → Keeps OnlyPatches (sync true)
      → OnlyPatches w (process_upgrade env sync w).1
  process_upgrade-OnlyPatches sync value w e k =
      suspended_pass env sync OnlyPatches-IsFrame (λ v w h. h) value w e k

  -- A pass over a plan that bears the suspend annotation, with the sync of the alert silences as the
  -- code has it, has no effect but status patches and the end of alert silences.
  pub process_upgrade-OnlySilences :
      (value : String) (w : World)
      → lookup suspend_annotation w.upgrade.annotations ≡ some value
      → Only IsEndEffect w (process_upgrade env (sync_alert_silences env) w).1
  process_upgrade-OnlySilences value w e =
      suspended_pass env (sync_alert_silences env) (Only-IsFrame IsEndEffect)
        OnlyPatches-OnlySilences value w e (sync_alert_silences-Only env)
