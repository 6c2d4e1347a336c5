-- ===== src/Talos/Health/Gate.antt =====
-- What the cluster health gate lets through, and how long a failing health check waits.
use mathlib.Core.Path.{subst}
use mathlib.Core.List.Memᴰ.{append_left, append_right}
use tuppr.Prelude.{
  ℕ, suc, String, ◌⊎◌, ◌++◌, Option, Memᴰ, Option-cases, if◌then◌else◌, ◌*◌, ◌≤◌, Bool, true, false,
  none, some, List, [], ◌∷◌, ◌≡◌, inl, inr, refl, is_nil, All, Bool-cases, arith,
}
use tuppr.Api.Cluster.{Node, is_node_ready}
use tuppr.Api.Talos.{Duration, TalosUpgrade}
use tuppr.Talos.Nodes.{comes_before, sort_nodes, get_sorted_nodes}
use tuppr.Talos.Health.Checked.{
  IsAmong, IsMachineReady, control_plane_ips, sort_nodes-keeps, compact-IsAmong, machines_ready-All,
}
use tuppr.Maintenance.{second}
use tuppr.Talos.Health.{
  retry_after, not_ready_names, machines_ready, gate, cluster_health_nodes, check_cluster_health,
}
use tuppr.Talos.World.{
  Env, World, M, Error, Outcome, Result, ok, err, Reply, continue, ask, pure, gets, ◌>>=◌,
}

-- A failing health check is evaluated again after 30 seconds to 5 minutes, and the wait does not
-- shrink while it keeps failing.
pub retry_after_bounds :
    (a b : Duration)
    → a ≤ b
    → (30 * second ≤ retry_after a)
      × (retry_after a ≤ 300 * second)
      × (retry_after a ≤ retry_after b)
unfolding retry_after
retry_after_bounds a b h = (ground arith, ground arith, ground arith)

false-true : false ≡ true → ⊥
false-true h = cc

not_ready_names-All :
    (nodes : List Node)
    → is_nil (not_ready_names nodes) ≡ true
    → All (λ n. is_node_ready n ≡ true) nodes
not_ready_names-All [] h = tt
not_ready_names-All (node ∷ nodes) h = elim (Bool-cases (is_node_ready node)) [
  | inl ready ↦ (ready, not_ready_names-All nodes (rw ready at h))
  | inr r ↦ absurd (false-true (rw r at h))
]

stop_go : {A : Type 0} {r : Reply} {a : A} → Outcome.stop r ≡ Outcome.go a → ⊥
stop_go h = cc

hang_go : {A : Type 0} {a : A} → Outcome.hang ≡ Outcome.go a → ⊥
hang_go h = cc

some-none : {A : Type 0} {a : A} → Outcome.go (some a) ≡ Outcome.go none → ⊥
some-none h = cc

go_err : {A : Type 0} {e : Error} {a : A} → Outcome.go (err e) ≡ Outcome.go (ok a) → ⊥
go_err h = cc

go_ok : {A : Type 0} {a b : A} → Outcome.go (ok a) ≡ Outcome.go (ok b) → a ≡ b
go_ok h = cc

Result-cases : {A : Type 0} (r : Result A) → ((e : Error) × (r ≡ err e)) ⊎ ((a : A) × (r ≡ ok a))
Result-cases (err e) = inl (e, refl)
Result-cases (ok a) = inr (a, refl)

-- What lets a batch past the gate: the selected nodes and the control-plane nodes were listed, each of
-- them is among `nodes`, these are all Ready, each of their machines answered that it is ready, and
-- etcd is healthy on the addresses of the control-plane nodes among them, unless the plan forces.
pub record IsClusterHealthy (env : Env) (u : TalosUpgrade) (nodes : List Node) : Type 0 where
  pub selected : List Node
  pub control_plane : List Node
  pub selected_read : (n : ℕ) × (env.list_nodes n u.spec.node_selector ≡ ok selected)
  pub control_plane_read : (n : ℕ) × (env.list_control_plane n ≡ ok control_plane)
  pub selected_among : (x : Node) → Memᴰ x selected → IsAmong nodes x
  pub control_plane_among : (x : Node) → Memᴰ x control_plane → IsAmong nodes x
  pub ready : All (λ n. is_node_ready n ≡ true) nodes
  pub machines : All (IsMachineReady env) nodes
  pub etcd :
      (u.spec.policy.force ≡ true)
      ⊎ ((n : ℕ) × (env.check_etcd_healthy n (control_plane_ips nodes) ≡ none))

module _ (env : Env) where
  ReadNodes : TalosUpgrade → List Node → Type 0
  ReadNodes u nodes =
      (selected : List Node) × (control_plane : List Node) × ((n : ℕ) × (env.list_nodes n
            u.spec.node_selector
          ≡ ok selected))
      × ((n : ℕ) × (env.list_control_plane n ≡ ok control_plane))
      × ((x : Node) → Memᴰ x selected → IsAmong nodes x)
      × ((x : Node) → Memᴰ x control_plane → IsAmong nodes x)

  read_nodes :
      (w : World) (nodes : List Node)
      → (cluster_health_nodes env w).0 ≡ Outcome.go (ok nodes)
      → ReadNodes w.upgrade nodes
  unfolding cluster_health_nodes get_sorted_nodes gets ask pure ◌>>=◌ ReadNodes
  read_nodes w nodes h = elim (Result-cases (env.list_nodes w.calls w.upgrade.spec.node_selector)) [
    | inl (e, failed) ↦ absurd (go_err (rw failed at h))
    | inr (selected, listed) ↦ elim (Result-cases (env.list_control_plane (suc w.calls))) [
      | inl (e, failed) ↦ absurd (go_err (rw (listed, failed) at h))
      | inr (control_plane, also) ↦
          let by_controller = comes_before env.config.controller_node_name in
          let all = sort_nodes by_controller selected ++ control_plane in
          let among : (x : Node) → Memᴰ x all → IsAmong nodes x = λ x m.
            subst (λ l. IsAmong l x) (go_ok (rw (listed, also) at h))
              (compact-IsAmong x _ (sort_nodes-keeps _ x all m)) in
          (
            selected,
            control_plane,
            (w.calls, listed),
            (suc w.calls, also),
            (λ x m.
                among x (append_left control_plane (sort_nodes-keeps by_controller x selected m))),
            (λ x m. among x (append_right (sort_nodes by_controller selected) m)),
          )
    ]
  ]

  Checked : Bool → List Node → Type 0
  Checked force nodes =
      All (λ n. is_node_ready n ≡ true) nodes
      × (All (IsMachineReady env) nodes)
      × ((force ≡ true) ⊎ ((n : ℕ) × (env.check_etcd_healthy n (control_plane_ips nodes) ≡ none)))

  -- The last test of the gate.
  etcd_checked :
      (force : Bool) (ips : List String) (w : World)
      → ((if force then pure none else do
        failed ← ask (λ n. env.check_etcd_healthy n ips)
        elim failed as (λ x. M (Option String)) [
          | some e ↦ pure (some "etcd not healthy")
          | none ↦ pure none
        ])
          w).0
        ≡ Outcome.go none
      → (force ≡ true) ⊎ ((n : ℕ) × (env.check_etcd_healthy n ips ≡ none))
  unfolding pure ask ◌>>=◌
  etcd_checked true ips w h = inl refl
  etcd_checked false ips w h = elim (Option-cases (env.check_etcd_healthy w.calls ips)) [
    | inl healthy ↦ inr (w.calls, healthy)
    | inr (e, failed) ↦ absurd (some-none (rw failed at h))
  ]

  -- The gate past the readiness of the nodes.
  machines_checked :
      (force : Bool) (nodes : List Node) (answer : Outcome (List String ⊎ String)) (w v : World)
      → (machines_ready env nodes [] w).0 ≡ answer
      → (continue answer
          (λ m. elim m as (λ x. M (Option String)) [
            | inr reason ↦ pure (some reason)
            | inl ips ↦ if force then pure none else do
              failed ← ask (λ n. env.check_etcd_healthy n ips)
              elim failed as (λ x. M (Option String)) [
                | some e ↦ pure (some "etcd not healthy")
                | none ↦ pure none
              ]
          ])
          v).0
        ≡ Outcome.go none
      → All (IsMachineReady env) nodes
        × ((force ≡ true) ⊎ ((n : ℕ) × (env.check_etcd_healthy n (control_plane_ips nodes) ≡ none)))
  unfolding pure
  machines_checked force nodes (Outcome.stop r) w v e h = absurd (stop_go h)
  machines_checked force nodes Outcome.hang w v e h = absurd (hang_go h)
  machines_checked force nodes (Outcome.go (inr reason)) w v e h = absurd (some-none h)
  machines_checked force nodes (Outcome.go (inl ips)) w v e h =
      let (all, same) = machines_ready-All env nodes [] ips w e in
      (all, rw same at (etcd_checked force ips v h))

  gate_checked :
      (force : Bool) (nodes : List Node) (w : World)
      → (gate env force (ok nodes) w).0 ≡ Outcome.go none
      → Checked force nodes
  unfolding gate pure ◌>>=◌ Checked
  gate_checked force nodes w h = elim (Bool-cases (is_nil (not_ready_names nodes))) [
    | inl ready ↦
        let (machines, etcd) =
          machines_checked force nodes (machines_ready env nodes [] w).0 w
            (machines_ready env nodes [] w).1 refl (rw ready at h) in
        (not_ready_names-All nodes ready, machines, etcd)
    | inr r ↦ absurd (some-none (rw r at h))
  ]

  after_nodes :
      (force : Bool) (answer : Outcome (Result (List Node))) (w : World)
      → (continue answer (gate env force) w).0 ≡ Outcome.go none
      → (nodes : List Node) × (answer ≡ Outcome.go (ok nodes)) × Checked force nodes
  unfolding gate pure
  after_nodes force (Outcome.stop r) w h = absurd (stop_go h)
  after_nodes force Outcome.hang w h = absurd (hang_go h)
  after_nodes force (Outcome.go (err e)) w h = absurd (some-none h)
  after_nodes force (Outcome.go (ok nodes)) w h = (nodes, refl, gate_checked force nodes w h)

  -- If checkClusterHealth finds nothing wrong, clusterHealthNodes answered with a list of nodes that
  -- has the name of every selected and every control-plane node that was listed. The nodes of the
  -- list are all Ready, each of their machines answered that it is ready, and, unless the plan forces,
  -- etcd is healthy on the addresses of the control-plane nodes among them.
  pub check_cluster_health-All :
      (w : World)
      → (check_cluster_health env w).0 ≡ Outcome.go none
      → (nodes : List Node) × ((cluster_health_nodes env w).0 ≡ Outcome.go (ok nodes))
        × IsClusterHealthy env w.upgrade nodes
  unfolding check_cluster_health gets ◌>>=◌ Checked ReadNodes
  check_cluster_health-All w h =
      let (nodes, found, checked) =
        after_nodes w.upgrade.spec.policy.force (cluster_health_nodes env w).0
          (cluster_health_nodes env w).1 h in
      let (ready, machines, etcd) = checked in
      let (selected, control_plane, selected_read, control_plane_read, a, b) =
        read_nodes w nodes found in
      (
        nodes,
        found,
        record {
          selected = selected;
          control_plane = control_plane;
          selected_read = selected_read;
          control_plane_read = control_plane_read;
          selected_among = a;
          control_plane_among = b;
          ready = ready;
          machines = machines;
          etcd = etcd;
        },
      )
