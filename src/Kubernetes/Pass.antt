-- ===== src/Kubernetes/Pass.antt =====
-- What one pass over a KubernetesUpgrade may do: the evidence behind each effect and each reply.
pub mod Transition
pub mod Reads
pub mod Steps
pub mod Gates
pub mod Restart
pub mod Run
pub mod Safety
use tuppr.Prelude.{
  ℕ, ◌≤◌, ◌<◌, ◌≡◌, ◌⊎◌, String, Bool, true, false, Option, none, some, List, [], ◌∷◌, All, is_nil,
  not, str_eq,
}
use tuppr.Api.Phase.{JobPhase}
use tuppr.Api.Cluster.{Node, Job}
use tuppr.Api.Kubernetes.{KubernetesUpgrade, KubernetesUpgradeSpec}
use tuppr.Audit.{max_completion_cycles}
use tuppr.Coordination.{Verdict, UpgradeType, is_another_upgrade_active}
use tuppr.Api.Talos.{Time}
use tuppr.Maintenance.{WindowResult, Checked, check_window, requeue_after}
use tuppr.Talos.World.{Result, ok, err, Error, Reply}
use tuppr.Kubernetes.Jobs.{upgrade_job}
use tuppr.Kubernetes.Nodes.{controller_loop, all_reporting_at}
use tuppr.Kubernetes.Process.{with_v}
use tuppr.Kubernetes.Status.{Update}
use tuppr.Kubernetes.World.{Env, World, Effect, UpgradeJob}
use tuppr.Kubernetes.World.Contract.{Rules}

-- No other upgrade holds the plan back, on some list of the TalosUpgrades.
abbrev pub IsFree : Env → String → Type 0
IsFree env name =
    (n : ℕ) × (is_another_upgrade_active none (env.list_talos_plans n) name UpgradeType.kubernetes
      ≡ Verdict.free)

-- What the answers of `env` show for a plan with the specification `spec`.
module _ (env : Env) (spec : KubernetesUpgradeSpec) where
  abbrev pub target : String
  target = spec.kubernetes.version

  -- A list of all nodes was read, in which each kubelet that reports is at the target.
  abbrev pub NodesAreAt : Type 0
  NodesAreAt =
      (n : ℕ) × (nodes : List Node) × (env.list_nodes n ≡ ok nodes)
      × (is_nil nodes ≡ false)
      × All (λ node. (node.kubelet_version ≡ "") ⊎ (node.kubelet_version ≡ target)) nodes

  -- The API server was read to be at the target.
  abbrev pub ServerIsAt : Type 0
  ServerIsAt =
      (n : ℕ) × (current : String) × (env.server_version n ≡ ok current) × (with_v current ≡ target)

  -- A list of control-plane nodes was read, all of which are at the target.
  abbrev pub ControlPlaneIsAt : Type 0
  ControlPlaneIsAt =
      (n : ℕ) × (nodes : List Node) × (env.list_control_plane n ≡ ok nodes)
      × (is_nil nodes ≡ false)
      × All (λ node. node.kubelet_version ≡ target) nodes

  abbrev pub IsReached : Type 0
  IsReached = (NodesAreAt × ServerIsAt) ⊎ ControlPlaneIsAt

  abbrev pub HasNoJob : Type 0
  HasNoJob = (n : ℕ) × (env.list_jobs n ≡ ok [])

  abbrev pub IsHealthy : Type 0
  IsHealthy = (n : ℕ) × (env.check_health n spec.health_checks ≡ none)

  abbrev pub IsOpen : Type 0
  IsOpen =
      (n : ℕ) × (r : WindowResult) × (check_window env.calendar spec.maintenance (env.now n)
        ≡ Checked.result r)
      × (r.allowed ≡ true)

  abbrev pub IsLagging : Type 0
  IsLagging =
      (n : ℕ) × (nodes : List Node) × (env.list_nodes n ≡ ok nodes)
      × (all_reporting_at target nodes ≡ false)

  abbrev pub IsController : String → String → Type 0
  IsController node ip =
      (n : ℕ) × (nodes : List Node) × (env.list_nodes n ≡ ok nodes)
      × (controller_loop target nodes "" "" ≡ some (node, ip))

  -- A closed window was found, and the reply waits for it.
  abbrev pub IsParked : Reply → Type 0
  IsParked r =
      (m : ℕ) × (n : ℕ) × (closed : WindowResult) × (check_window env.calendar spec.maintenance
          (env.now m)
        ≡ Checked.result closed)
      × (closed.allowed ≡ false)
      × (r.requeue ≡ requeue_after closed (env.now n))

  -- A reply after an error, with a delay, or for a closed window.
  abbrev pub IsReply : Reply → Type 0
  IsReply r = ((e : Error) × (r.error ≡ some e)) ⊎ ((0 < r.requeue) ⊎ IsParked r)

  -- A closed window was found, and some read of the clock has reached the start that it named.
  abbrev pub IsOvertaken : Type 0
  IsOvertaken =
      (m : ℕ) × (n : ℕ) × (closed : WindowResult) × (t : Time) × (check_window env.calendar
          spec.maintenance (env.now m)
        ≡ Checked.result closed)
      × (closed.allowed ≡ false)
      × (closed.next_window_start ≡ some t)
      × (t ≤ env.now n)

  -- controller-runtime comes back to the plan: after an error or a positive delay. The exception is a
  -- closed window whose start the clock has reached by the time the delay is computed.
  abbrev pub ComesBack : Reply → Type 0
  ComesBack r = ((e : Error) × (r.error ≡ some e)) ⊎ ((0 < r.requeue) ⊎ IsOvertaken)

  -- The loop over the fire times of a window ran out of rounds.
  abbrev pub HasNoAnswer : Type 0
  HasNoAnswer =
      (n : ℕ) × (check_window env.calendar spec.maintenance (env.now n) ≡ Checked.no_answer)

-- `env` answers a pass over the plan `name`; `Clear` is what the pass knows of other upgrades.
module _ (env : Env) (name : String) (spec : KubernetesUpgradeSpec) (Clear : Type 0) where
  -- A job that upgrades the controller node `node`.
  abbrev pub IsFor : UpgradeJob → String → String → Type 0
  IsFor job node ip =
      (job_name : String) × (tag : String) × (job
        ≡ upgrade_job job_name name spec env.default_endpoint tag node ip)

  -- What stands behind the creation of a job.
  pub record IsGuarded (job : UpgradeJob) : Type 0 where
    pub clear : Clear
    pub no_job : HasNoJob env spec
    pub lagging : IsLagging env spec
    pub healthy : IsHealthy env spec
    pub open_window : IsOpen env spec
    pub controller :
        (node : String) × (ip : String) × IsController env spec node ip × IsFor job node ip

  abbrev pub PermittedPhase : JobPhase → Type 0
  PermittedPhase JobPhase.completed = IsReached env spec
  PermittedPhase JobPhase.unset = ⊥
  PermittedPhase JobPhase.pre_hook = ⊥
  PermittedPhase JobPhase.draining = ⊥
  PermittedPhase JobPhase.rebooting = ⊥
  PermittedPhase JobPhase.post_hook = ⊥
  PermittedPhase _ = Unit

  abbrev pub PermittedUpdate : Update → Type 0
  PermittedUpdate (Update.phase p) = PermittedPhase p
  PermittedUpdate (Update.completion_cycles n) = n ≤ max_completion_cycles
  PermittedUpdate _ = Unit

  abbrev pub Permitted : Effect → Type 0
  Permitted (Effect.patch_status us) = All PermittedUpdate us
  Permitted (Effect.create_job job) = IsGuarded job
  Permitted _ = Unit

  -- The plan of the pass, and the limit on its cycles.
  pub record IsPlan (u : KubernetesUpgrade) : Type 0 where
    pub name_kept : u.name ≡ name
    pub spec_kept : u.spec ≡ spec
    pub cycles : u.status.completion_cycles ≤ max_completion_cycles

  pub record IsSound (w : World) : Type 0 where
    pub plan : IsPlan w.upgrade
    pub stored_cycles : w.stored.completion_cycles ≤ max_completion_cycles
    pub permitted : All Permitted w.trace

  unfoldable pub pass_rules : Rules
  pass_rules = record {
    invariant = IsSound;
    reply = IsReply env spec;
    hanging = HasNoAnswer env spec;
    call =
        λ w n i. record { plan = i.plan; stored_cycles = i.stored_cycles; permitted = i.permitted };
  }
