-- ===== src/Kubernetes/Pass/Reads.antt =====
-- What the reads of a pass show.
use tuppr.Prelude.{
  ℕ, ◌≡◌, ◌⊎◌, refl, ◌∙◌, ap, arith, eq_iff, inl, inr, String, Bool, true, false, Option, none,
  List, [], ◌∷◌, All, Bool-cases,
}
use tuppr.Api.Phase.{}
use tuppr.Api.Cluster.{Node, Job}
use tuppr.Api.Kubernetes.{KubernetesUpgrade, KubernetesUpgradeSpec}
use tuppr.Maintenance.{}
use tuppr.Talos.World.{Result, ok, err, ⊤}
use tuppr.Kubernetes.Jobs.{only_job, find_active_job}
use tuppr.Kubernetes.Nodes.{
  all_at, all_reporting_at, checked, are_all_nodes_upgraded, are_all_control_plane_nodes_upgraded,
  find_controller_node,
}
use tuppr.Kubernetes.World.{Env, M, ask}
use tuppr.Kubernetes.World.Contract.{
  Meets, Meets-pure, Meets-ask, Meets-bind, Meets-result, Meets-option,
}
use tuppr.Kubernetes.Pass.{
  NodesAreAt, ControlPlaneIsAt, HasNoJob, IsLagging, IsController, IsPlan, pass_rules,
}
use tuppr.Kubernetes.Pass.Transition.{}

-- The tests of the nodes, as what they say of each node.
all_at-All :
    (target : String) (nodes : List Node)
    → all_at target nodes ≡ true
    → All (λ node. node.kubelet_version ≡ target) nodes
all_at-All target [] h = tt
all_at-All target (node ∷ nodes) h =
    ground (arith, all_at-All target nodes, eq_iff node.kubelet_version target)

all_reporting_at-All :
    (target : String) (nodes : List Node)
    → all_reporting_at target nodes ≡ true
    → All (λ node. (node.kubelet_version ≡ "") ⊎ (node.kubelet_version ≡ target)) nodes
all_reporting_at-All target [] h = tt
all_reporting_at-All target (node ∷ nodes) h = ground (
  arith,
  all_reporting_at-All target nodes,
  eq_iff node.kubelet_version target,
  eq_iff node.kubelet_version "",
)

module _ (env : Env) (name : String) (spec : KubernetesUpgradeSpec) (Clear : Type 0) where
  abbrev pub Promises : {A : Type 0} → (A → Type 0) → M A → Type 0
  Promises = Meets (pass_rules env name spec Clear)

  abbrev target : String
  target = spec.kubernetes.version

  abbrev pub JobsAreRead : Result (Option Job) → Type 0
  JobsAreRead (ok none) = HasNoJob env spec
  JobsAreRead _ = ⊤

  only_job-JobsAreRead :
      (namespace : String) (jobs : List Job) (n : ℕ)
      → env.list_jobs n ≡ ok jobs
      → JobsAreRead (only_job namespace jobs)
  only_job-JobsAreRead namespace [] n h = (n, h)
  only_job-JobsAreRead namespace (job ∷ []) n h = tt
  only_job-JobsAreRead namespace (job ∷ other ∷ jobs) n h = tt

  -- The version that the plan of the pass names.
  pub version_kept :
      {u : KubernetesUpgrade}
      → IsPlan env name spec Clear u
      → u.spec.kubernetes.version ≡ spec.kubernetes.version
  version_kept i = ap (λ s. s.kubernetes.version) i.spec_kept

  -- An answer, with the call that gave it.
  abbrev pub Answers : {A : Type 0} → (ℕ → A) → A → Type 0
  Answers f a = (n : ℕ) × (f n ≡ a)

  pub ask-Meets : {A : Type 0} (f : ℕ → A) → Promises (Answers f) (ask f)
  ask-Meets f = Meets-ask f (λ n. (n, refl))

  pub find_active_job-Meets : Promises JobsAreRead (find_active_job env)
  unfolding find_active_job
  find_active_job-Meets = Meets-bind _ _ (ask-Meets env.list_jobs) (λ r (n, h).
      Meets-result r (λ e _. Meets-pure _ tt)
        (λ jobs is_ok. Meets-pure _ (only_job-JobsAreRead _ jobs n (h ∙ is_ok))))

  abbrev pub NodesAreRead : Result Bool → Type 0
  NodesAreRead (err e) = ⊤
  NodesAreRead (ok true) = NodesAreAt env spec
  NodesAreRead (ok false) = IsLagging env spec

  checked-NodesAreRead :
      (message : String) (nodes : List Node) (n : ℕ)
      → env.list_nodes n ≡ ok nodes
      → NodesAreRead (checked message (all_reporting_at target) nodes)
  checked-NodesAreRead message [] n h = tt
  checked-NodesAreRead message (node ∷ nodes) n h =
      elim (Bool-cases (all_reporting_at target (node ∷ nodes))) [
        | inl every ↦ rw every (n, _, h, refl, all_reporting_at-All target (node ∷ nodes) every)
        | inr lags ↦ rw lags (n, _, h, lags)
      ]

  pub are_all_nodes_upgraded-Meets :
      (version : String)
      → version ≡ target
      → Promises NodesAreRead (are_all_nodes_upgraded env version)
  unfolding are_all_nodes_upgraded
  are_all_nodes_upgraded-Meets version same = Meets-bind _ _ (ask-Meets env.list_nodes) (λ r (n, h).
      Meets-result r (λ e _. Meets-pure _ tt)
        (λ nodes is_ok. Meets-pure _ (rw same (checked-NodesAreRead _ nodes n (h ∙ is_ok)))))

  abbrev pub ControlPlaneIsRead : Result Bool → Type 0
  ControlPlaneIsRead (ok true) = ControlPlaneIsAt env spec
  ControlPlaneIsRead _ = ⊤

  checked-ControlPlaneIsRead :
      (message : String) (nodes : List Node) (n : ℕ)
      → env.list_control_plane n ≡ ok nodes
      → ControlPlaneIsRead (checked message (all_at target) nodes)
  checked-ControlPlaneIsRead message [] n h = tt
  checked-ControlPlaneIsRead message (node ∷ nodes) n h =
      elim (Bool-cases (all_at target (node ∷ nodes))) [
        | inl every ↦ rw every (n, _, h, refl, all_at-All target (node ∷ nodes) every)
        | inr lags ↦ rw lags tt
      ]

  pub are_all_control_plane_nodes_upgraded-Meets :
      (version : String)
      → version ≡ target
      → Promises ControlPlaneIsRead (are_all_control_plane_nodes_upgraded env version)
  unfolding are_all_control_plane_nodes_upgraded
  are_all_control_plane_nodes_upgraded-Meets version same =
      Meets-bind _ _ (ask-Meets env.list_control_plane) (λ r (n, h).
        Meets-result r (λ e _. Meets-pure _ tt)
          (λ nodes is_ok.
            Meets-pure _ (rw same (checked-ControlPlaneIsRead _ nodes n (h ∙ is_ok)))))

  abbrev pub ControllerIsRead : Result (String × String) → Type 0
  ControllerIsRead (err e) = ⊤
  ControllerIsRead (ok found) = IsController env spec found.0 found.1

  pub find_controller_node-Meets :
      (version : String)
      → version ≡ target
      → Promises ControllerIsRead (find_controller_node env version)
  unfolding find_controller_node
  find_controller_node-Meets version same = Meets-bind _ _ (ask-Meets env.list_nodes) (λ r (n, h).
      Meets-result r (λ e _. Meets-pure _ tt)
        (λ nodes is_ok.
          Meets-option _ (λ _. Meets-pure _ tt)
            (λ found is_some. Meets-pure (ok found) (n, nodes, h ∙ is_ok, rw (← same) is_some))))
