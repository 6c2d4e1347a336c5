-- ===== src/Talos/Next.antt =====
-- The nodes that a run still has to upgrade: findNextNodes and recordOutOfBandCompletedNodes
-- (internal/controller/talosupgrade/upgrade.go).
use tuppr.Prelude.{
  ℕ, String, Bool, not, ◌||◌, none, some, List, [], ◌∷◌, ◌++◌, ltb, ◌⧺◌, length, is_nil,
  if◌then◌else◌,
}
use tuppr.Api.Cluster.{Node}
use tuppr.Talos.Jobs.{is_completed_node, is_failed_node}
use tuppr.Talos.Nodes.{
  is_labelled, get_sorted_nodes, add_node_outdated_taint, remove_node_outdated_taint,
  remove_node_upgrading_label,
}
use tuppr.Talos.Outcome.{ensure_node_uncordoned}
use tuppr.Talos.Status.{Update}
use tuppr.Talos.Verify.{node_needs_upgrade}
use tuppr.Talos.World.{
  Env, M, ⊤, Result, ok, err, wrap, is_transient, pure, status, upgrade, modify_status,
  update_status, ◌>>=◌, ◌>>◌,
}

-- `result` and `unreachable` of findNextNodes.
pub record Candidates : Type 0 where
  pub pending : List String
  pub unreachable : List String

abbrev pub no_candidates : Candidates
no_candidates = record { pending = []; unreachable = [] }

abbrev add_pending : ℕ → String → Candidates → Candidates
add_pending count name c =
    if ltb (length c.pending) count then record c { pending = c.pending ++ (name ∷ []) } else c

abbrev add_unreachable : String → Candidates → Candidates
add_unreachable name c = record c { unreachable = c.unreachable ++ (name ∷ []) }

-- `added`, `labeled` and `resumed` of recordOutOfBandCompletedNodes.
pub record OutOfBand : Type 0 where
  pub added : List String
  pub labeled : List String

module _ (env : Env) where
  -- The loop of findNextNodes.
  next_nodes_loop : ℕ → List Node → Candidates → M (Result Candidates)
  unfolding add_node_outdated_taint remove_node_outdated_taint node_needs_upgrade
  next_nodes_loop count [] c = pure (ok c)
  next_nodes_loop count (node ∷ nodes) c = do
    u ← upgrade
    if is_completed_node u.status node.name
        then (do remove_node_outdated_taint env node.name; next_nodes_loop count nodes c)
        else (if is_failed_node u.status node.name then next_nodes_loop count nodes c else do
          r ← node_needs_upgrade env node u.spec.talos.version
          elim r [
            | err e ↦
                if is_transient e
                then next_nodes_loop count nodes (add_unreachable node.name c)
                else pure (err (wrap ("failed to check node " ⧺ node.name) e))
            | ok needs ↦
                if needs
                then (do
                  add_node_outdated_taint env node.name
                  next_nodes_loop count nodes (add_pending count node.name c))
                else (do remove_node_outdated_taint env node.name; next_nodes_loop count nodes c)
          ])

  -- findNextNodes
  unfoldable pub find_next_nodes : ℕ → M (Result Candidates)
  unfolding get_sorted_nodes next_nodes_loop
  find_next_nodes count = do
    u ← upgrade
    r ← get_sorted_nodes env u.spec.node_selector
    elim r [ err e ↦ pure (err e) | ok nodes ↦ next_nodes_loop count nodes no_candidates ]

  -- The loop of recordOutOfBandCompletedNodes, with the first error that is not transient.
  out_of_band_loop : List Node → OutOfBand → M (Result OutOfBand)
  unfolding node_needs_upgrade ensure_node_uncordoned
  out_of_band_loop [] found = pure (ok found)
  out_of_band_loop (node ∷ nodes) found = do
    u ← upgrade
    if is_completed_node u.status node.name || is_failed_node u.status node.name
        then out_of_band_loop nodes found
        else (do
          r ← node_needs_upgrade env node u.spec.talos.version
          elim r [
            | err e ↦
                if is_transient e
                then out_of_band_loop nodes found
                else pure (err (wrap ("check node " ⧺ node.name) e))
            | ok needs ↦ if needs then out_of_band_loop nodes found else do
              ensure_node_uncordoned env node.name
              out_of_band_loop nodes (record {
                added = found.added ++ (node.name ∷ []);
                labeled =
                    if is_labelled node then found.labeled ++ (node.name ∷ []) else found.labeled;
              })
          ])

  remove_labels : List String → M ⊤
  unfolding remove_node_upgrading_label
  remove_labels [] = pure tt
  remove_labels (name ∷ names) = do remove_node_upgrading_label env name; remove_labels names

  -- recordOutOfBandCompletedNodes; its caller takes an error for `resumed`.
  unfoldable pub record_out_of_band_completed_nodes : M (Result Bool)
  unfolding get_sorted_nodes out_of_band_loop remove_labels
  record_out_of_band_completed_nodes = do
    u ← upgrade
    r ← get_sorted_nodes env u.spec.node_selector
    elim r [
      | err e ↦ pure (err e)
      | ok nodes ↦ do
        f ← out_of_band_loop nodes (record { added = []; labeled = [] })
        elim f [
          | err e ↦ pure (err e)
          | ok found ↦ if is_nil found.added then pure (ok (not (is_nil found.labeled))) else do
            modify_status (λ s. record s { completed_nodes = s.completed_nodes ++ found.added })
            s ← status
            failure ← update_status env (Update.completed_nodes s.completed_nodes ∷ [])
            elim failure [
              | some e ↦ pure (err e)
              | none ↦ do remove_labels found.labeled; pure (ok (not (is_nil found.labeled)))
            ]
        ]
    ]
