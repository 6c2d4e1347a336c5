-- ===== src/Talos/Outcome/Durable/Upgrades.antt =====
-- The two ends of a node's upgrade keep every node durable.
use tuppr.Prelude.{String, true, Option, none, some, ◌≡◌, refl, ap, ◌∙◌, ◌⧺◌}
use tuppr.Api.Talos.{NodeUpgradeStatus}
use tuppr.Talos.Reboot.{add_completed_node, add_failed_node, clear_reboot_tracking}
use tuppr.Talos.World.{Env, World, M, Outcome, Error, wrap, continue, pure, ◌>>=◌, ◌>>◌}
use tuppr.Talos.World.Keeps.{Keeps}
use tuppr.Talos.World.Aside.{IsAside, Keeps-upgrade, Keeps-stored}
use tuppr.Talos.Outcome.{cleanup_job_for_node, complete_node_upgrade, process_single_job_failure}
use tuppr.Talos.Outcome.Aside.{
  remove_node_upgrading_label-IsAside, sync_node_install_image-IsAside,
  ensure_node_uncordoned-IsAside, cleanup_job_for_node-IsAside,
}
use tuppr.Talos.Outcome.Durable.{IsDurable, is_recorded}
use tuppr.Talos.Outcome.Durable.Steps.{
  add_completed_node-IsDurable, add_completed_node-is_recorded, add_failed_node-IsDurable,
  add_failed_node-is_recorded, clear_reboot_tracking-IsDurable,
}

module _ (env : Env) (name : String) where
  aside :
      {A : Type 0} {m : M A}
      → Keeps IsAside m
      → (w : World) → IsDurable name w
      → IsDurable name (m w).1
  aside k w d = record {
    accounted = rw (Keeps-stored k w) d.accounted;
    completed = rw (Keeps-stored k w, Keeps-upgrade k w) d.completed;
    failed = rw (Keeps-stored k w, Keeps-upgrade k w) d.failed;
    waiting = rw (Keeps-stored k w, Keeps-upgrade k w) d.waiting;
  }

  after :
      {A B : Type 0} (r : Outcome A) (f : A → M B) (w : World)
      → IsDurable name w
      → ((a : A) → r ≡ Outcome.go a → IsDurable name (f a w).1)
      → IsDurable name (continue r f w).1
  after (Outcome.stop r) f w d k = d
  after Outcome.hang f w d k = d
  after (Outcome.go a) f w d k = k a refl

  -- First `m`, then what follows on its answer.
  step :
      {A B : Type 0} (m : M A) (f : A → M B) (w : World)
      → IsDurable name (m w).1
      → ((a : A) → (m w).0 ≡ Outcome.go a → IsDurable name (f a (m w).1).1)
      → IsDurable name ((m >>= f) w).1
  unfolding ◌>>=◌
  step m f w d k = after (m w).0 f (m w).1 d k

  -- First an action that stands aside, whatever it answers.
  then_ :
      {A B : Type 0} {m : M A} (f : A → M B) (w : World)
      → Keeps IsAside m
      → IsDurable name w
      → ((a : A) (v : World) → IsDurable name v → IsDurable name (f a v).1)
      → IsDurable name ((m >>= f) w).1
  then_ {m = m} f w k d rest = step m f w (aside k w d) (λ a e. rest a _ (aside k w d))

  -- The end of completeNodeUpgrade, on the answer of the write.
  clear_completed :
      (node : String) (answer : Option Error) (w : World)
      → (answer ≡ none → is_recorded node w.stored ≡ true)
      → IsDurable name w
      → IsDurable name
          ((elim answer as (λ x. M (Option Error)) [
            | some e ↦ pure (some (wrap ("add completed node " ⧺ node) e))
            | none ↦ clear_reboot_tracking env node >> pure none
          ])
            w).1
  unfolding pure
  clear_completed node (some e) w stored d = d
  clear_completed node none w stored d =
      step (clear_reboot_tracking env node) _ w
        (clear_reboot_tracking-IsDurable env name node w (stored refl) d)
        (λ a e. clear_reboot_tracking-IsDurable env name node w (stored refl) d)

  -- The end of processSingleJobFailure, on the answer of the write.
  clear_failed :
      (node : String) (answer : Option Error) (w : World)
      → (answer ≡ none → is_recorded node w.stored ≡ true)
      → IsDurable name w
      → IsDurable name
          ((elim answer as (λ x. M (Option Error)) [
            | some e ↦ pure (some (wrap ("add failed node " ⧺ node) e))
            | none ↦ clear_reboot_tracking env node >> (cleanup_job_for_node env node >> pure none)
          ])
            w).1
  unfolding pure
  clear_failed node (some e) w stored d = d
  clear_failed node none w stored d =
      let d' = clear_reboot_tracking-IsDurable env name node w (stored refl) d in
      step (clear_reboot_tracking env node) _ w d'
        (λ a e. then_ _ _ (cleanup_job_for_node-IsAside env node) d' (λ b v dv. dv))

  -- If the stored status knows a node and the object in memory is not behind it, both hold after
  -- completeNodeUpgrade of any node, whichever of its reads and writes fail.
  pub complete_node_upgrade-IsDurable :
      (node : String) (w : World)
      → IsDurable name w
      → IsDurable name (complete_node_upgrade env node w).1
  unfolding complete_node_upgrade
  complete_node_upgrade-IsDurable node w d =
      then_ _ w (sync_node_install_image-IsAside env node) d (λ a w d.
        then_ _ w (ensure_node_uncordoned-IsAside env node) d (λ a w d.
          then_ _ w (cleanup_job_for_node-IsAside env node) d (λ a w d.
            then_ _ w (remove_node_upgrading_label-IsAside env node) d (λ a w d.
              step (add_completed_node env node) _ w
                (add_completed_node-IsDurable env name node w d)
                (λ answer e.
                  clear_completed node answer _
                    (λ h.
                      add_completed_node-is_recorded env name node w (e ∙ ap (λ o. Outcome.go o) h))
                    (add_completed_node-IsDurable env name node w d))))))

  -- If the stored status knows a node and the object in memory is not behind it, both hold after
  -- processSingleJobFailure of any node, whichever of its reads and writes fail.
  pub process_single_job_failure-IsDurable :
      (node last_error : String) (w : World)
      → IsDurable name w
      → IsDurable name (process_single_job_failure env node last_error w).1
  unfolding process_single_job_failure
  process_single_job_failure-IsDurable node last_error w d =
      let entry : NodeUpgradeStatus = record { node_name = node; last_error = last_error } in
      then_ _ w (remove_node_upgrading_label-IsAside env node) d (λ a w d.
        step (add_failed_node env entry) _ w (add_failed_node-IsDurable env name entry w d)
          (λ answer e.
            clear_failed node answer _
              (λ h. add_failed_node-is_recorded env name entry w (e ∙ ap (λ o. Outcome.go o) h))
              (add_failed_node-IsDurable env name entry w d)))
