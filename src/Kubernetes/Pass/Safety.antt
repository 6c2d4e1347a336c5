-- ===== src/Kubernetes/Pass/Safety.antt =====
-- What a pass over a KubernetesUpgrade guarantees.
use mathlib.Core.Path.{subst}
use native.Mathlib.Decide.{dec_lt}
use tuppr.Prelude.{
  ℕ, ◌≤◌, ◌<◌, sym, some, arith, ◌≡◌, ◌≢◌, ◌⊎◌, refl, inl, inr, String, Bool, true, false, List, [],
  ◌∷◌, All, contains_func, Bool-cases,
}
use tuppr.Api.Phase.{JobPhase, is_active, is_completed}
use tuppr.Api.Kubernetes.{KubernetesUpgradeSpec}
use tuppr.Audit.{max_completion_cycles}
use tuppr.Api.Talos.{Time}
use tuppr.Maintenance.{WindowResult, Checked, check_window, requeue_after}
use tuppr.Maintenance.Window.{check_window_closed}
use tuppr.Talos.World.{Outcome, Reply, ⊤}
use tuppr.Kubernetes.Process.{process_run, process_upgrade}
use tuppr.Kubernetes.Status.{Update}
use tuppr.Kubernetes.World.{Env, World, Effect, UpgradeJob, ◌>>=◌, gets}
use tuppr.Kubernetes.World.Contract.{Yields}
use tuppr.Kubernetes.Pass.{
  IsFree, IsReached, IsGuarded, PermittedUpdate, Permitted, IsSound, ComesBack, IsReply, pass_rules,
}
use tuppr.Kubernetes.Pass.Run.{enter_and_follow-Meets, process_upgrade-Meets}

-- The jobs that a trace creates.
abbrev pub created_jobs : List Effect → List UpgradeJob
created_jobs [] = []
created_jobs (Effect.create_job job ∷ effects) = job ∷ created_jobs effects
created_jobs (_ ∷ effects) = created_jobs effects

-- Whether a status write completes the plan, and whether some write of a trace does.
abbrev names_completed : Update → Bool
names_completed (Update.phase p) = is_completed p
names_completed _ = false

abbrev writes_completed : Effect → Bool
writes_completed (Effect.patch_status us) = contains_func names_completed us
writes_completed _ = false

abbrev pub completes : List Effect → Bool
completes effects = contains_func writes_completed effects

false-ne-true : false ≡ true → ⊥
false-ne-true = cc

module _ (env : Env) (name : String) (spec : KubernetesUpgradeSpec) (Clear : Type 0) where
  guarded :
      (effects : List Effect)
      → All (Permitted env name spec Clear) effects
      → All (IsGuarded env name spec Clear) (created_jobs effects)
  guarded [] h = tt
  guarded (Effect.create_job job ∷ effects) h = (h.0, guarded effects h.1)
  guarded (Effect.patch_status us ∷ effects) h = guarded effects h.1
  guarded (Effect.update_object ∷ effects) h = guarded effects h.1
  guarded (Effect.delete_job job ∷ effects) h = guarded effects h.1

-- A list with a member that a test accepts has what the test asks for.
found :
    {A : Type 0} (P : A → Type 0) (test : A → Bool) (R : Type 0)
    → ((a : A) → test a ≡ true → P a → R)
    → (xs : List A) → All P xs
    → contains_func test xs ≡ true
    → R
found P test R f [] h e = absurd (false-ne-true e)
found P test R f (x ∷ xs) h e = elim (Bool-cases (test x)) [
  | inl hit ↦ f x hit h.0
  | inr miss ↦ found P test R f xs h.1 (rw miss at e)
]

module _ (env : Env) (name : String) (spec : KubernetesUpgradeSpec) (Clear : Type 0) where
  update_reached :
      (u : Update)
      → names_completed u ≡ true
      → PermittedUpdate env name spec Clear u
      → IsReached env spec
  update_reached u e h =
      elim u
          as (λ u.
            names_completed u ≡ true → PermittedUpdate env name spec Clear u → IsReached env spec) [
              | Update.phase p ↦ λ e h. phase_reached p e h
              | _ ↦ λ e h. absurd (false-ne-true e)
            ]
        e h
    where
      phase_reached :
          (p : JobPhase)
          → is_completed p ≡ true
          → PermittedUpdate env name spec Clear (Update.phase p)
          → IsReached env spec
      phase_reached p e h =
          elim p
              as (λ p.
                is_completed p ≡ true
                → PermittedUpdate env name spec Clear (Update.phase p)
                → IsReached env spec) [
                  | JobPhase.completed ↦ λ e h. h
                  | _ ↦ λ e h. absurd (false-ne-true e)
                ]
            e h

  effect_reached :
      (e : Effect)
      → writes_completed e ≡ true
      → Permitted env name spec Clear e
      → IsReached env spec
  effect_reached (Effect.patch_status us) e h =
      found (PermittedUpdate env name spec Clear) names_completed _ update_reached us h e
  effect_reached Effect.update_object e h = absurd (false-ne-true e)
  effect_reached (Effect.create_job job) e h = absurd (false-ne-true e)
  effect_reached (Effect.delete_job job) e h = absurd (false-ne-true e)

-- A plan that was just read: nothing is written yet, its version is one that the API accepts, and
-- the cycles in memory and in the store are within their limit.
pub record IsFresh (w : World) : Type 0 where
  pub unwritten : w.trace ≡ []
  pub proper : w.upgrade.spec.kubernetes.version ≢ "v"
  pub cycles : w.upgrade.status.completion_cycles ≤ max_completion_cycles
  pub stored_cycles : w.stored.completion_cycles ≤ max_completion_cycles

-- The delay is positive until the clock reaches the start.
requeue_after_cases :
    (closed : WindowResult) (t now : Time)
    → closed.allowed ≡ false
    → closed.next_window_start ≡ some t
    → (0 < requeue_after closed now) ⊎ (t ≤ now)
unfolding requeue_after
requeue_after_cases closed t now shut start = elim (dec_lt now t) [
  | yes before ↦ inl (ground arith)
  | no after ↦ inr (omega arith)
]

IsReply-ComesBack :
    (env : Env) (spec : KubernetesUpgradeSpec) (r : Reply)
    → IsReply env spec r
    → ComesBack env spec r
IsReply-ComesBack env spec r (inl e) = inl e
IsReply-ComesBack env spec r (inr (inl d)) = inr (inl d)
IsReply-ComesBack env spec r (inr (inr (m, n, closed, is_result, shut, delay))) =
    let (t, start, from, all) =
      check_window_closed env.calendar spec.maintenance (env.now m) closed is_result shut in
    elim (requeue_after_cases closed t (env.now n) shut start) [
      | inl positive ↦ inr (inl (subst (λ d. 0 < d) (sym delay) positive))
      | inr reached ↦ inr (inr (m, n, closed, t, is_result, shut, start, reached))
    ]

-- The evidence for the coordination: free, or the run is active already.
abbrev pub MayRun : Env → World → Type 0
MayRun env w = IsFree env w.upgrade.name ⊎ (is_active w.upgrade.status.phase ≡ true)

module _ (env : Env) (w : World) (fresh : IsFresh w) where
  abbrev name : String
  name = w.upgrade.name

  abbrev spec : KubernetesUpgradeSpec
  spec = w.upgrade.spec

  fresh-IsSound : (Clear : Type 0) → IsSound env name spec Clear w
  fresh-IsSound Clear = record {
    plan = record { name_kept = refl; spec_kept = refl; cycles = fresh.cycles };
    stored_cycles = fresh.stored_cycles;
    permitted = rw fresh.unwritten tt;
  }

  -- What the pass leaves and how it ends, by the rules.
  passed :
      IsSound env name spec ⊤ (process_upgrade env w).1
      × Yields (pass_rules env name spec ⊤) (λ _. ⊥) (process_upgrade env w).0
  unfolding pass_rules
  passed =
      (process_upgrade-Meets env name spec ⊤ fresh.proper {Q = λ _. ⊥} tt).at w (fresh-IsSound ⊤)

  -- A pass past the annotations, over a plan that was just read, creates a job only where it read all
  -- of this: the run was active or no other upgrade held it back, no upgrade job existed, a node
  -- lagged, the health checks passed, the maintenance window was open; and the job is the one for
  -- the controller node that findControllerNode chose.
  pub created_jobs-process_run :
      All (IsGuarded env name spec (MayRun env w)) (created_jobs (process_run env w).1.trace)
  unfolding process_run pass_rules ◌>>=◌ gets
  created_jobs-process_run =
      guarded env name spec (MayRun env w) _
        ((enter_and_follow-Meets env name spec (MayRun env w) fresh.proper inl {Q = λ _. ⊥}
            w.upgrade.status.phase inr).at
          w (fresh-IsSound (MayRun env w))).0.permitted

  -- A pass over a plan that was just read writes the phase Completed only where it read that the
  -- kubelets that report and the API server are at the target, or that the control plane is.
  pub completes-process_upgrade :
      completes (process_upgrade env w).1.trace ≡ true → IsReached env spec
  completes-process_upgrade =
      found (Permitted env name spec ⊤) writes_completed _ (effect_reached env name spec ⊤) _
        passed.0.permitted

  -- A pass over a plan that was just read keeps the completion cycles, in memory and in the store,
  -- within their limit.
  pub process_upgrade-le_max_completion_cycles :
      ((process_upgrade env w).1.upgrade.status.completion_cycles ≤ max_completion_cycles)
      × ((process_upgrade env w).1.stored.completion_cycles ≤ max_completion_cycles)
  process_upgrade-le_max_completion_cycles = (passed.0.plan.cycles, passed.0.stored_cycles)

  -- Where the windows of a plan that was just read always have an answer, a pass ends with a reply
  -- that brings the plan back, an error or a positive delay; or it found a closed window, and some
  -- read of the clock has reached the start that this window named.
  pub process_upgrade-ComesBack :
      ((n : ℕ) → check_window env.calendar spec.maintenance (env.now n) ≢ Checked.no_answer)
      → (r : Reply) × ((process_upgrade env w).0 ≡ Outcome.stop r) × ComesBack env spec r
  unfolding pass_rules
  process_upgrade-ComesBack answers = ends _ refl passed.1
    where
      ends :
          (o : Outcome ⊤)
          → (process_upgrade env w).0 ≡ o
          → Yields (pass_rules env name spec ⊤) (λ _. ⊥) o
          → (r : Reply) × ((process_upgrade env w).0 ≡ Outcome.stop r) × ComesBack env spec r
      ends (Outcome.stop r) e h = (r, e, IsReply-ComesBack env spec r h)
      ends Outcome.hang e h = absurd (answers h.0 h.1)
      ends (Outcome.go a) e h = absurd h
