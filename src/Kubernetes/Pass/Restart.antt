-- ===== src/Kubernetes/Pass/Restart.antt =====
-- The annotations and a new generation keep to the rules of a pass.
use tuppr.Prelude.{arith, String, not, Option, none, some, [], leb}
use tuppr.Api.Phase.{JobPhase}
use tuppr.Api.Cluster.{has_key}
use tuppr.Api.Kubernetes.{KubernetesUpgradeSpec}
use tuppr.Talos.Annotations.{reset_annotation}
use tuppr.Talos.World.{Error, ⊤}
use tuppr.Kubernetes.Annotations.{
  suspend_answer, suspend, handle_suspend_annotation, restart_answer, restart, restart_updates,
  handle_reset_annotation, handle_generation_change,
}
use tuppr.Kubernetes.World.{Env, Effect}
use tuppr.Kubernetes.World.Contract.{Meets-pure, Meets-if, Meets-bind, Meets-option}
use tuppr.Kubernetes.Pass.{}
use tuppr.Kubernetes.Pass.Transition.{
  upgrade-Meets, modify_upgrade-Meets, set_phase_with_updates-Meets, write-Meets,
}
use tuppr.Kubernetes.Pass.Reads.{Promises}

module _ (env : Env) (name : String) (spec : KubernetesUpgradeSpec) (Clear : Type 0) where
  suspend_answer-Meets :
      (failed : Option Error) → Promises env name spec Clear (λ _. ⊤) (suspend_answer env failed)
  unfolding suspend_answer
  suspend_answer-Meets (some e) = Meets-pure _ tt
  suspend_answer-Meets none = Meets-pure _ tt

  suspend-Meets :
      (value : Option String) → Promises env name spec Clear (λ _. ⊤) (suspend env value)
  unfolding suspend
  suspend-Meets none = Meets-pure _ tt
  suspend-Meets (some value) =
      Meets-bind {P = λ _. ⊤} _ _
        (set_phase_with_updates-Meets env name spec Clear JobPhase.pending "Suspended" "" _ [] tt
          tt)
        (λ failed _. suspend_answer-Meets failed)

  pub handle_suspend_annotation-Meets :
      Promises env name spec Clear (λ _. ⊤) (handle_suspend_annotation env)
  unfolding handle_suspend_annotation
  handle_suspend_annotation-Meets =
      Meets-bind _ _ (upgrade-Meets env name spec Clear) (λ u i. suspend-Meets _)

  restart_answer-Meets :
      (f : Error → Error) (failed : Option Error)
      → Promises env name spec Clear (λ _. ⊤) (restart_answer env f failed)
  unfolding restart_answer
  restart_answer-Meets f (some e) = Meets-pure _ tt
  restart_answer-Meets f none =
      Meets-bind {P = λ _. ⊤} _ _
        (modify_upgrade-Meets env name spec Clear _ (λ u i. record {
          name_kept = i.name_kept;
          spec_kept = i.spec_kept;
          cycles = omega arith;
        }))
        (λ _ _. Meets-pure _ tt)

  restart-Meets :
      (message : String) (f : Error → Error)
      → Promises env name spec Clear (λ _. ⊤) (restart env message f)
  unfolding restart
  restart-Meets message f =
      Meets-bind {P = λ _. ⊤} _ _
        (set_phase_with_updates-Meets env name spec Clear JobPhase.pending "" "" message
          restart_updates tt (tt, (tt, (tt, (omega arith, tt)))))
        (λ failed _. restart_answer-Meets f failed)

  pub handle_reset_annotation-Meets :
      Promises env name spec Clear (λ _. ⊤) (handle_reset_annotation env)
  unfolding handle_reset_annotation
  handle_reset_annotation-Meets = Meets-bind _ _ (upgrade-Meets env name spec Clear) (λ u i.
      Meets-if (not (has_key reset_annotation u.annotations)) (λ _. Meets-pure _ tt)
        (λ _.
          Meets-bind {P = λ _. ⊤} _ _
            (modify_upgrade-Meets env name spec Clear _ (λ u i. record {
              name_kept = i.name_kept;
              spec_kept = i.spec_kept;
              cycles = i.cycles;
            }))
            (λ _ _.
              Meets-bind {P = λ _. ⊤} _ _ (write-Meets env name spec Clear Effect.update_object tt)
                (λ failed _.
                  Meets-option failed (λ _. restart-Meets _ _) (λ e _. Meets-pure _ tt)))))

  pub handle_generation_change-Meets :
      Promises env name spec Clear (λ _. ⊤) (handle_generation_change env)
  unfolding handle_generation_change
  handle_generation_change-Meets = Meets-bind _ _ (upgrade-Meets env name spec Clear) (λ u i.
      Meets-if (leb u.generation u.status.observed_generation) (λ _. Meets-pure _ tt)
        (λ _. restart-Meets _ _))
