-- ===== src/Talos/Start.antt =====
-- The start of a batch (internal/controller/talosupgrade): tupprOwnsDrain, drainNode and the end of
-- processNextBatch (upgrade.go), createJob and pickEndpointIP (jobs.go), and the cordon of
-- internal/controller/drain/drain.go. The evictions of DrainNode are one call of `Env`; the pod of
-- a job (buildJob), the metrics and the notification are left out.
pub mod Drained
use tuppr.Prelude.{
  ◌*◌, String, Bool, true, false, not, ◌||◌, Option, none, some, List, [], ◌∷◌, ◌++◌, str_lt, ◌⧺◌,
  length, if◌then◌else◌,
}
use tuppr.Api.Phase.{JobPhase}
use tuppr.Api.Cluster.{Node, is_node_ready}
use tuppr.Api.Talos.{drain_enabled}
use tuppr.Maintenance.{second, minute}
use tuppr.NodeUtil.{get_node_ip}
use tuppr.Talos.Batch.{NodeImage}
use tuppr.Talos.Nodes.{
  get_node, is_control_plane, is_labelled, sort_nodes, add_node_upgrading_label,
}
use tuppr.Talos.Outcome.{is_self_hosted_upgrade}
use tuppr.Talos.Phase.{set_phase_with_nodes, set_phase_with_updates, report_reconcile_error}
use tuppr.Talos.World.{
  Env, M, ⊤, ok, err, Error, Effect, wrap, wrap_option, plain_error, is_already_exists, pure, ask,
  upgrade, write, attempt, requeue, fail, ◌>>=◌, ◌>>◌,
}

-- The first control-plane node that is neither labelled nor NotReady and has an address; "" if none.
abbrev pub first_endpoint : List Node → String
first_endpoint [] = ""
first_endpoint (node ∷ nodes) =
    let rest = first_endpoint nodes in
    if is_labelled node || not (is_node_ready node)
    then rest
    else elim (get_node_ip node) [ none ↦ rest | some ip ↦ ip ]

module _ (env : Env) where
  -- tupprOwnsDrain
  unfoldable pub tuppr_owns_drain : M Bool
  unfolding is_self_hosted_upgrade
  tuppr_owns_drain = do
    u ← upgrade
    if drain_enabled u.spec
        then pure true
        else (if not u.spec.policy.wait_for_volume_detach
            then pure false
            else do alone ← is_self_hosted_upgrade env; pure (not alone))

  -- setUnschedulable, on the last attempt of its retries.
  unfoldable pub set_unschedulable : String → Bool → M (Option Error)
  set_unschedulable name wanted = do
    r ← get_node env name
    elim r [
      | err e ↦ pure (some e)
      | ok node ↦
          if (if wanted then node.unschedulable else not node.unschedulable)
          then pure none
          else write env (Effect.set_unschedulable name wanted)
    ]

  -- drainNode. The volumes are read for a wait whose failure is only logged.
  unfoldable pub drain_node : String → M (Option Error)
  unfolding set_unschedulable
  drain_node name = do
    cordoned ← set_unschedulable name true
    elim cordoned [
      | some e ↦ pure (some (wrap ("failed to cordon node " ⧺ name) e))
      | none ↦ do
        ask (λ n. env.evictable_volumes n name)
        failed ← attempt env (Effect.evict_pods name) (λ n. env.drain_node n name)
        pure (wrap_option ("failed to drain node " ⧺ name) failed)
    ]

  -- The rollback of a failed drain: failures are only logged.
  uncordon_all : List String → M ⊤
  unfolding set_unschedulable
  uncordon_all [] = pure tt
  uncordon_all (name ∷ names) = do set_unschedulable name false; uncordon_all names

  -- The loop over the batch, with the nodes drained so far.
  unfoldable pub drain_all : List NodeImage → List String → M ⊤
  unfolding drain_node uncordon_all
  drain_all [] drained = pure tt
  drain_all (ni ∷ batch) drained = do
    failed ← drain_node ni.node_name
    elim failed [
      | some e ↦ do uncordon_all (drained ++ (ni.node_name ∷ [])); requeue minute
      | none ↦ drain_all batch (drained ++ (ni.node_name ∷ []))
    ]

  -- pickEndpointIP
  unfoldable pub pick_endpoint_ip : Node → String → M String
  unfolding is_node_ready get_node_ip
  pick_endpoint_ip node ip = if is_control_plane node then pure ip else do
    r ← ask env.list_control_plane
    elim r [
      | err e ↦ pure ""
      | ok nodes ↦ pure (first_endpoint (sort_nodes (λ a b. str_lt a.name b.name) nodes))
    ]

  -- createJob, whose Job is not read by its caller. A job that exists is used again.
  unfoldable pub create_job : String → String → M (Option Error)
  unfolding pick_endpoint_ip get_node_ip
  create_job name image = do
    r ← get_node env name
    elim r [
      | err e ↦ pure (some (wrap ("get node " ⧺ name) e))
      | ok node ↦ elim (get_node_ip node) [
        | none ↦ pure (some (plain_error ("get IP for node " ⧺ name)))
        | some ip ↦ do
          endpoint ← pick_endpoint_ip node ip
          failed ← write env (Effect.create_job name image endpoint)
          elim failed [
            | none ↦ pure none
            | some e ↦
                if is_already_exists e
                then (do
                  gone ← ask (λ n. env.get_job n name)
                  pure (wrap_option "get existing job" gone))
                else pure (some (wrap ("create job for node " ⧺ name) e))
          ]
      ]
    ]

  -- The loop that creates the jobs.
  unfoldable pub create_jobs : List NodeImage → M ⊤
  unfolding create_job add_node_upgrading_label report_reconcile_error set_phase_with_updates
  create_jobs [] = pure tt
  create_jobs (ni ∷ batch) = do
    failed ← create_job ni.node_name ni.image
    elim failed [
      | some e ↦ report_reconcile_error env "CreateJob" "create upgrade job" minute e
      | none ↦ do add_node_upgrading_label env ni.node_name; create_jobs batch
    ]

  -- The drain of a batch, with the phase before it.
  drain_batch : List String → List NodeImage → M ⊤
  unfolding drain_all set_phase_with_updates
  drain_batch nodes batch = do
    failed ←
        set_phase_with_nodes env JobPhase.draining nodes
          ("Draining " ⧺ env.decimal (length nodes) ⧺ " nodes")
    elim failed [ some e ↦ fail (wrap "update phase for draining" e) | none ↦ drain_all batch [] ]

  -- processNextBatch from "Starting batch upgrade" on.
  unfoldable pub start_batch : List String → List NodeImage → M ⊤
  unfolding tuppr_owns_drain drain_batch create_jobs set_phase_with_updates
  start_batch nodes batch = do
    owns ← tuppr_owns_drain
    (if owns then drain_batch nodes batch else pure tt)
    create_jobs batch
    failed ←
        set_phase_with_nodes env JobPhase.upgrading nodes
          ("Upgrading " ⧺ env.decimal (length nodes) ⧺ " nodes")
    elim failed [
      | some e ↦ fail (wrap "update phase for batch upgrade" e)
      | none ↦ requeue (30 * second)
    ]
