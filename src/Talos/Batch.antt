-- ===== src/Talos/Batch.antt =====
-- The next batch (internal/controller/talosupgrade/upgrade.go): nextBatch,
-- controlPlaneUpgradeInFlight, waitForControlPlaneSlot and buildBatchImages; getParallelism of
-- controller.go. The cached client and the API reader answer different calls of `Env`.
pub mod Choice
use tuppr.Prelude.{
  ℕ, ◌*◌, String, Bool, true, false, not, ◌&&◌, ◌||◌, Option, none, some, List, [], ◌∷◌, ◌++◌, ltb,
  ◌==◌, ◌⧺◌, length, filter, map, contains, contains_func, is_nil, if◌then◌else◌,
}
use tuppr.Api.Cluster.{Node, Job, is_empty, is_terminal_job}
use tuppr.Api.Talos.{TalosUpgradeSpec}
use tuppr.Maintenance.{second, minute}
use tuppr.Talos.Health.{join}
use tuppr.Talos.Image.{build_talos_upgrade_image}
use tuppr.Talos.Jobs.{target_of}
use tuppr.Talos.Nodes.{is_control_plane, is_labelled, get_node}
use tuppr.Talos.Outcome.{talos_app_name}
use tuppr.Talos.Phase.{set_pending_with_reason, set_phase_with_updates, report_reconcile_error}
use tuppr.Talos.World.{
  Env, M, ⊤, Result, ok, err, wrap, plain_error, pure, ask, upgrade, requeue, ◌>>=◌, ◌>>◌,
}

-- getParallelism
abbrev pub get_parallelism : TalosUpgradeSpec → ℕ
get_parallelism spec = elim spec.parallelism [ none ↦ 1 | some n ↦ if ltb 0 n then n else 1 ]

-- nodeImage
pub record NodeImage : Type 0 where
  pub node_name : String
  pub image : String

-- The first unfinished job that targets a control-plane node outside the batch.
abbrev pub busy_job : List String → List String → List Job → Option String
busy_job control_plane batch [] = none
busy_job control_plane batch (job ∷ jobs) =
    let rest = busy_job control_plane batch jobs in
    if is_terminal_job job
      || not (contains control_plane (target_of job))
      || contains batch (target_of job)
    then rest
    else some (target_of job)

-- The labelled control-plane nodes outside the batch.
abbrev pub labelled_outside : List String → List Node → List String
labelled_outside batch nodes =
    map (λ n. n.name) (filter (λ n. is_labelled n && not (contains batch n.name)) nodes)

-- The first of them that the run does not select, or still has pending.
abbrev pub busy_label : List String → List String → List String → Option String
busy_label selected pending [] = none
busy_label selected pending (name ∷ names) =
    let rest = busy_label selected pending names in
    if contains selected name && not (contains pending name) then rest else some name

abbrev pub names_of : List Node → List String
names_of nodes = map (λ n. n.name) nodes

module _ (env : Env) where
  -- The loop of nextBatch.
  next_batch_loop : List String → ℕ → List String → M (Result (List String))
  next_batch_loop [] parallelism batch = pure (ok batch)
  next_batch_loop (name ∷ pending) parallelism batch = do
    r ← get_node env name
    elim r [
      | err e ↦ pure (err (wrap ("failed to get node " ⧺ name) e))
      | ok node ↦
          if is_control_plane node
          then (if is_nil batch
              then pure (ok (name ∷ []))
              else next_batch_loop pending parallelism batch)
          else (if length (batch ++ (name ∷ [])) == parallelism
              then pure (ok (batch ++ (name ∷ [])))
              else next_batch_loop pending parallelism (batch ++ (name ∷ [])))
    ]

  -- nextBatch
  unfoldable pub next_batch : List String → ℕ → M (Result (List String))
  unfolding next_batch_loop
  next_batch pending parallelism = next_batch_loop pending parallelism []

  -- The labels that hold a batch; the selected nodes are listed only where there is one.
  busy_by_label : List String → List String → M (Result (Option String))
  busy_by_label pending labelled = if is_nil labelled then pure (ok none) else do
    u ← upgrade
    r ← ask (λ n. env.list_nodes n u.spec.node_selector)
    elim r [
      | err e ↦ pure (err (wrap "failed to list selected nodes" e))
      | ok selected ↦ pure (ok (busy_label (names_of selected) pending labelled))
    ]

  -- controlPlaneUpgradeInFlight; `none` is its "".
  unfoldable pub control_plane_upgrade_in_flight :
      List String → List String → M (Result (Option String))
  unfolding busy_by_label is_terminal_job
  control_plane_upgrade_in_flight batch pending = do
    c ← ask env.list_control_plane
    elim c [
      | err e ↦ pure (err (wrap "failed to list control-plane nodes" e))
      | ok nodes ↦
          if not (contains_func (λ name. contains (names_of nodes) name) batch)
          then pure (ok none)
          else (if ltb 1 (length batch)
              then pure (
                  err (
                    plain_error
                      ("batch " ⧺ join batch ⧺ " holds a control-plane node with other nodes")))
              else (do
                r ← ask (λ n. env.list_jobs n talos_app_name)
                elim r [
                  | err e ↦ pure (err (wrap "failed to list upgrade jobs" e))
                  | ok jobs ↦ elim (busy_job (names_of nodes) batch jobs) [
                    | some target ↦ pure (ok (some target))
                    | none ↦ busy_by_label pending (labelled_outside batch nodes)
                  ]
                ]))
    ]

  -- waitForControlPlaneSlot
  unfoldable pub wait_for_control_plane_slot : List String → List String → M ⊤
  unfolding control_plane_upgrade_in_flight report_reconcile_error set_phase_with_updates
  wait_for_control_plane_slot batch pending = do
    r ← control_plane_upgrade_in_flight batch pending
    elim r [
      | err e ↦
          report_reconcile_error env "CheckCoordination" "check control-plane upgrades in flight"
            minute e
      | ok none ↦ pure tt
      | ok (some busy) ↦ do
        set_pending_with_reason env "WaitingForOtherUpgrade" (
            "Waiting for control-plane node "
            ⧺ busy
            ⧺ " to finish upgrading before upgrading "
            ⧺ join batch)
        requeue (30 * second)
    ]

  -- buildBatchImages
  unfoldable pub build_batch_images : List String → M (List NodeImage)
  unfolding build_talos_upgrade_image report_reconcile_error set_phase_with_updates
  build_batch_images [] = pure []
  build_batch_images (name ∷ names) = do
    r ← build_talos_upgrade_image env name
    elim r [
      | err e ↦ report_reconcile_error env "BuildTargetImage" "build target image" minute e
      | ok image ↦ do
        unavailable ← ask (λ n. env.check_image n image)
        elim unavailable [
          | some e ↦ do
            set_pending_with_reason env "WaitingForImage"
                ("Waiting for image availability for node " ⧺ name ⧺ ": " ⧺ e.text)
            requeue minute
          | none ↦ do
            rest ← build_batch_images names
            pure (record { node_name = name; image = image } ∷ rest)
        ]
    ]
