-- ===== src/Talos/Health.antt =====
-- The health gates: checkClusterHealth, waitForClusterHealth and clusterHealthNodes
-- (internal/controller/talosupgrade/clusterhealth.go), interBatchHealthChecks and waitForHealthChecks
-- (upgrade.go), healthCheckWaitMessage (audit.go), and RetryAfter (internal/controller/healthcheck).
-- The timeout of the Talos calls is part of what they answer.
pub mod Gate
pub mod Checked
use tuppr.Prelude.{
  ◌-◌, ◌*◌, ◌/◌, ◌⊎◌, inl, inr, String, Bool, false, not, ◌&&◌, Option, none, some, List, [], ◌∷◌,
  ◌++◌, leb, str_eq, str_lt, ◌⧺◌, length, filter, map, is_nil, is_none, min, max, if◌then◌else◌,
}
use tuppr.Api.Phase.{JobPhase}
use tuppr.Api.Cluster.{Node, is_node_ready}
use tuppr.Api.Talos.{Time, Duration, HealthCheckSpec, TalosUpgrade, HookSpec}
use tuppr.Maintenance.{second}
use tuppr.NodeUtil.{get_node_ip}
use tuppr.Talos.Nodes.{is_control_plane, sort_nodes, get_sorted_nodes}
use tuppr.Talos.Phase.{set_phase, set_phase_with_updates}
use tuppr.Talos.Status.{Update}
use tuppr.Talos.World.{
  Env, M, ⊤, Result, ok, err, Error, wrap, pure, ask, status, upgrade, modify_status, requeue,
  ◌>>=◌, ◌>>◌,
}

-- slices.CompactFunc by name: of each run of nodes with one name, the first.
abbrev pub compact_from : Node → List Node → List Node
compact_from last [] = []
compact_from last (node ∷ nodes) =
    let same = compact_from last nodes in
    let other = compact_from node nodes in if str_eq last.name node.name then same else node ∷ other

abbrev pub compact : List Node → List Node
compact [] = []
compact (node ∷ nodes) = node ∷ compact_from node nodes

-- `strings.Join(names, ", ")`
abbrev pub join : List String → String
join [] = ""
join (name ∷ []) = name
join (name ∷ names) = name ⧺ ", " ⧺ join names

-- RetryAfter (internal/healthcheck/checker.go)
abbrev pub retry_interval : Duration
retry_interval = 30 * second

abbrev pub max_retry_interval : Duration
max_retry_interval = 300 * second

unfoldable pub retry_after : Duration → Duration
retry_after failing_for = min (max (failing_for / 4) retry_interval) max_retry_interval

-- hasPreHooks, hasPostHooks
abbrev pub pre_hooks : TalosUpgrade → List HookSpec
pre_hooks u = elim u.spec.hooks [ none ↦ [] | some h ↦ h.pre ]

abbrev pub post_hooks : TalosUpgrade → List HookSpec
post_hooks u = elim u.spec.hooks [ none ↦ [] | some h ↦ h.post ]

abbrev pub has_pre_hooks : TalosUpgrade → Bool
has_pre_hooks u = not (is_nil (pre_hooks u))

abbrev pub has_post_hooks : TalosUpgrade → Bool
has_post_hooks u = not (is_nil (post_hooks u))

-- interBatchHealthChecks
unfoldable pub inter_batch_health_checks : TalosUpgrade → List HealthCheckSpec × Bool
inter_batch_health_checks u =
    let checks = filter (λ c. not c.skip_after_pre_hooks) u.spec.health_checks in
    if has_pre_hooks u && leb (length (pre_hooks u)) u.status.pre_hook_index
    then (checks, is_nil checks)
    else (u.spec.health_checks, false)

-- The first error of an unhealthy cluster: the reason that is shown.
abbrev pub not_ready_names : List Node → List String
not_ready_names nodes = map (λ n. n.name) (filter (λ n. not (is_node_ready n)) nodes)

module _ (env : Env) where
  -- clusterHealthNodes
  unfoldable pub cluster_health_nodes : M (Result (List Node))
  unfolding get_sorted_nodes
  cluster_health_nodes = do
    u ← upgrade
    r ← get_sorted_nodes env u.spec.node_selector
    elim r [
      | err e ↦ pure (err e)
      | ok selected ↦ do
        c ← ask env.list_control_plane
        elim c [
          | err e ↦ pure (err (wrap "failed to list control-plane nodes" e))
          | ok control_plane ↦
              pure (
                ok (compact (sort_nodes (λ a b. str_lt a.name b.name) (selected ++ control_plane))))
        ]
    ]

  -- The machine checks: the control-plane addresses, or the reason that is shown.
  pub machines_ready : List Node → List String → M (List String ⊎ String)
  unfolding get_node_ip
  machines_ready [] ips = pure (inl ips)
  machines_ready (node ∷ nodes) ips = elim (get_node_ip node) [
    | none ↦ pure (inr ("node " ⧺ node.name ⧺ " has no usable IP"))
    | some ip ↦ do
      failed ← ask (λ n. env.check_machine_ready n ip)
      elim failed [
        | some e ↦ pure (inr ("node " ⧺ node.name ⧺ ": Talos machine not ready"))
        | none ↦ machines_ready nodes (if is_control_plane node then ips ++ (ip ∷ []) else ips)
      ]
  ]

  -- checkClusterHealth on the nodes; `some` is the text that waitForClusterHealth shows.
  gate : Bool → Result (List Node) → M (Option String)
  unfolding machines_ready is_node_ready
  gate force (err e) = pure (some e.text)
  gate force (ok nodes) =
      if not (is_nil (not_ready_names nodes))
      then pure (some ("node(s) not Ready: " ⧺ join (not_ready_names nodes)))
      else (do
        m ← machines_ready nodes []
        elim m [
          | inr reason ↦ pure (some reason)
          | inl ips ↦ if force then pure none else do
            failed ← ask (λ n. env.check_etcd_healthy n ips)
            elim failed [ some e ↦ pure (some "etcd not healthy") | none ↦ pure none ]
        ])

  -- checkClusterHealth
  unfoldable pub check_cluster_health : M (Option String)
  unfolding cluster_health_nodes gate
  check_cluster_health = do u ← upgrade; r ← cluster_health_nodes; gate u.spec.policy.force r

  -- waitForClusterHealth
  unfoldable pub wait_for_cluster_health : M ⊤
  unfolding check_cluster_health set_phase_with_updates
  wait_for_cluster_health = do
    unhealthy ← check_cluster_health
    elim unhealthy [
      | none ↦ pure tt
      | some reason ↦ do
        set_phase env JobPhase.health_checking ("Waiting for cluster health: " ⧺ reason)
        requeue (30 * second)
    ]

  -- `talosUpgrade.Status.HealthChecksFailingSince = …` where the status write went through.
  note_failing_since : Option Error → Option Time → M ⊤
  note_failing_since (some e) since = pure tt
  note_failing_since none since =
      modify_status (λ s. record s { health_checks_failing_since = since })

  -- waitForHealthChecks
  unfoldable pub wait_for_health_checks : List HealthCheckSpec → M ⊤
  unfolding set_phase_with_updates note_failing_since retry_after
  wait_for_health_checks checks = do
    now ← ask env.now
    s ← status
    let since = s.health_checks_failing_since
    failed ← ask (λ n. env.check_health n checks)
    elim failed [
      | some e ↦ do
        let began : Time = elim since [ none ↦ now | some t ↦ t ]
        r ←
            set_phase_with_updates env JobPhase.health_checking "" []
              ("Waiting for health checks: " ⧺ e.reason)
              (if is_none since then Update.health_checks_failing_since (some began) ∷ [] else [])
        note_failing_since r (some began)
        requeue (retry_after (now - began))
      | none ↦ do
        r ←
            set_phase_with_updates env JobPhase.health_checking "" [] "Running health checks"
              (if is_none since then [] else Update.health_checks_failing_since none ∷ [])
        note_failing_since r none
    ]
