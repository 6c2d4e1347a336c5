-- ===== src/Talos/Hooks.antt =====
-- The hook sequence of a run: internal/controller/talosupgrade/hooks.go. The pod of a hook job
-- (buildHookJob) is left out: a job is created for a hook phase and an index.
pub mod Sequence
use tuppr.Prelude.{
  ℕ, ◌+◌, ◌-◌, ◌*◌, String, Bool, true, false, not, ◌&&◌, Option, none, some, List, [], ◌∷◌, leb,
  str_eq, ◌⧺◌, length, filter, if◌then◌else◌,
}
use tuppr.Api.Phase.{JobPhase}
use tuppr.Api.Cluster.{Job, OwnerRef, get_or_empty, is_succeeded, is_terminal_job}
use tuppr.Api.Talos.{HookSpec, TalosUpgrade, TalosUpgradeStatus}
use tuppr.Maintenance.{second, minute}
use tuppr.Talos.Health.{pre_hooks, post_hooks}
use tuppr.Talos.Jobs.{app_instance_label}
use tuppr.Talos.Outcome.{delete_job}
use tuppr.Talos.Phase.{set_phase, set_phase_with_updates}
use tuppr.Talos.Status.{Update}
use tuppr.Talos.World.{
  Env, M, ⊤, Result, ok, err, Error, Effect, wrap, pure, ask, upgrade, modify_status, update_status,
  write, requeue, fail, ◌>>=◌, ◌>>◌,
}

-- hookPhasePre, hookPhasePost
pub data HookPhase : Type 0 where
  pre post : HookPhase

abbrev pub hook_phase_text : HookPhase → String
hook_phase_text HookPhase.pre = "pre"
hook_phase_text HookPhase.post = "post"

-- The phase of the run while its hooks of this kind run.
abbrev pub parent_phase : HookPhase → JobPhase
parent_phase HookPhase.pre = JobPhase.pre_hook
parent_phase HookPhase.post = JobPhase.post_hook

-- hookList
abbrev pub hook_list : TalosUpgrade → HookPhase → List HookSpec
hook_list u HookPhase.pre = pre_hooks u
hook_list u HookPhase.post = post_hooks u

-- hookIndex
abbrev pub hook_index : TalosUpgradeStatus → HookPhase → ℕ
hook_index s HookPhase.pre = s.pre_hook_index
hook_index s HookPhase.post = s.post_hook_index

abbrev pub hook_app_name : String
hook_app_name = "talos-upgrade-hook"

abbrev pub hook_phase_label : String
hook_phase_label = "tuppr.home-operations.com/hook-phase"

abbrev pub hook_index_label : String
hook_index_label = "tuppr.home-operations.com/hook-index"

abbrev pub has_owner_uid : String → Option OwnerRef → Bool
has_owner_uid uid none = false
has_owner_uid uid (some o) = str_eq o.uid uid

abbrev pub first_job : List Job → Option Job
first_job [] = none
first_job (job ∷ _) = some job

-- `hooks[idx]`, which processHookPhase reads below the length.
abbrev pub hook_at : ℕ → List HookSpec → Option HookSpec
hook_at n [] = none
hook_at n (hook ∷ hooks) = if leb n 0 then some hook else hook_at (n - 1) hooks

-- What advanceHookIndex and failPreHook write, and put on the object in memory.
abbrev pub index_update : HookPhase → ℕ → Update
index_update HookPhase.pre n = Update.pre_hook_index n
index_update HookPhase.post n = Update.post_hook_index n

abbrev pub with_index : HookPhase → ℕ → TalosUpgradeStatus → TalosUpgradeStatus
with_index HookPhase.pre n s = record s { pre_hook_index = n }
with_index HookPhase.post n s = record s { post_hook_index = n }

module _ (env : Env) where
  -- The labels and the owner that findActiveHookJob asks for.
  abbrev is_hook_job : TalosUpgrade → HookPhase → Job → Bool
  is_hook_job u phase job =
      str_eq (get_or_empty app_instance_label job.labels) u.name
      && str_eq (get_or_empty hook_phase_label job.labels) (hook_phase_text phase)
      && has_owner_uid u.uid job.controller
      && str_eq (get_or_empty hook_index_label job.labels) (env.decimal (hook_index u.status phase))

  -- findActiveHookJob
  unfoldable pub find_active_hook_job : HookPhase → M (Result (Option Job))
  find_active_hook_job phase = do
    u ← upgrade
    r ← ask (λ n. env.list_jobs n hook_app_name)
    elim r [
      | err e ↦ pure (err (wrap "list hook jobs" e))
      | ok jobs ↦ pure (ok (first_job (filter (is_hook_job u phase) jobs)))
    ]

  -- startHookJob
  unfoldable pub start_hook_job : HookSpec → HookPhase → ℕ → ℕ → M ⊤
  unfolding set_phase_with_updates
  start_hook_job hook phase index total = do
    failed ← write env (Effect.create_hook_job (hook_phase_text phase) index)
    elim failed [
      | some e ↦ fail (wrap "create hook job" e)
      | none ↦ do
        set_phase env (parent_phase phase) (
            "Running "
            ⧺ hook_phase_text phase
            ⧺ "-hook "
            ⧺ hook.name
            ⧺ " ("
            ⧺ env.decimal (index + 1)
            ⧺ "/"
            ⧺ env.decimal total
            ⧺ ")")
        requeue (10 * second)
    ]

  -- advanceHookIndex
  unfoldable pub advance_hook_index : HookPhase → ℕ → M (Option Error)
  advance_hook_index phase next = do
    modify_status (with_index phase next)
    update_status env (index_update phase next ∷ [])

  -- failPreHook
  unfoldable pub fail_pre_hook : ℕ → M (Option Error)
  fail_pre_hook total = do
    modify_status (λ s. record s { pre_hook_failed = true; pre_hook_index = total })
    update_status env (Update.pre_hook_failed true ∷ Update.pre_hook_index total ∷ [])

  -- What handleHookJobStatus records of a terminal job.
  record_hook : HookPhase → Bool → ℕ → ℕ → M (Option Error)
  unfolding advance_hook_index fail_pre_hook
  record_hook HookPhase.pre succeeded index total =
      if succeeded then advance_hook_index HookPhase.pre (index + 1) else fail_pre_hook total
  record_hook HookPhase.post succeeded index total = advance_hook_index HookPhase.post (index + 1)

  -- handleHookJobStatus
  unfoldable pub handle_hook_job_status : Job → HookPhase → ℕ → M ⊤
  unfolding record_hook delete_job is_terminal_job is_succeeded
  handle_hook_job_status job phase total =
      if not (is_terminal_job job) then requeue (10 * second) else do
        u ← upgrade
        failed ← record_hook phase (is_succeeded job) (hook_index u.status phase) total
        elim failed [ some e ↦ fail e | none ↦ do delete_job env job; requeue second ]

  -- processHookPhase; it returns where the hooks of the phase are done.
  unfoldable pub process_hook_phase : HookPhase → M ⊤
  unfolding find_active_hook_job handle_hook_job_status start_hook_job
  process_hook_phase phase = do
    u ← upgrade
    let index = hook_index u.status phase
    let total = length (hook_list u phase)
    elim (hook_at index (hook_list u phase)) [
      | none ↦ pure tt
      | some hook ↦ do
        r ← find_active_hook_job phase
        elim r [
          | err e ↦ requeue minute
          | ok none ↦ start_hook_job hook phase index total
          | ok (some job) ↦ handle_hook_job_status job phase total
        ]
    ]
