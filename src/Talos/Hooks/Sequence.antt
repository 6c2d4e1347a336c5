-- ===== src/Talos/Hooks/Sequence.antt =====
-- How the hook sequence advances.
use mathlib.Core.Path.{subst}
use tuppr.Prelude.{
  sym, ◌⊎◌, if◌then◌else◌, ℕ, ◌+◌, Bool, true, false, Option, none, some, ◌≡◌, inl, inr, refl, ap,
  ◌∙◌, Option-cases,
}
use tuppr.Api.Cluster.{Job, is_succeeded, is_terminal_job}
use tuppr.Api.Talos.{TalosUpgrade, TalosUpgradeStatus}
use tuppr.Talos.Hooks.{
  HookPhase, hook_index, with_index, record_hook, advance_hook_index, fail_pre_hook,
  handle_hook_job_status,
}
use tuppr.Maintenance.{second}
use tuppr.Talos.Outcome.{delete_job}
use tuppr.Talos.Outcome.Aside.{delete_job-IsAside}
use tuppr.Talos.World.{
  Env, World, M, ⊤, Error, Outcome, continue, requeue, fail, gets, stop_with, modify_status,
  update_status, record_patch, ◌>>=◌, ◌>>◌,
}
use tuppr.Talos.World.Aside.{Keeps-upgrade, Keeps-stored, IsAside-bind, IsAside-stop}

-- The status after a terminal hook job: the next hook is due, but after a failed pre-hook no other
-- pre-hook is, and the run is marked.
pub after_hook : HookPhase → Bool → ℕ → TalosUpgradeStatus → TalosUpgradeStatus
after_hook HookPhase.pre true total s = with_index HookPhase.pre (s.pre_hook_index + 1) s
after_hook HookPhase.pre false total s = record s { pre_hook_failed = true; pre_hook_index = total }
after_hook HookPhase.post succeeded total s = with_index HookPhase.post (s.post_hook_index + 1) s

record_hook-status :
    (env : Env) (phase : HookPhase) (succeeded : Bool) (total : ℕ) (w : World)
    → (record_hook env phase succeeded (hook_index w.upgrade.status phase) total w).1.upgrade.status
      ≡ after_hook phase succeeded total w.upgrade.status
unfolding record_hook advance_hook_index fail_pre_hook after_hook modify_status update_status ◌>>=◌
    record_patch
record_hook-status env HookPhase.pre true total w = elim (Option-cases (env.write_fails w.calls)) [
  | inl h ↦ rw h
  | inr (x, h) ↦ rw h
]
record_hook-status env HookPhase.pre false total w = elim (Option-cases (env.write_fails w.calls)) [
  | inl h ↦ rw h
  | inr (x, h) ↦ rw h
]
record_hook-status env HookPhase.post succeeded total w =
    elim (Option-cases (env.write_fails w.calls)) [ inl h ↦ rw h | inr (x, h) ↦ rw h ]

-- What follows the record leaves the object in memory.
rest-upgrade :
    (env : Env) (job : Job) (answer : Outcome (Option Error)) (w : World)
    → (continue answer
        (λ failed. elim failed as (λ x. M ⊤) [
          | some e ↦ fail e
          | none ↦ delete_job env job >> requeue second
        ])
        w).1.upgrade
      ≡ w.upgrade
unfolding stop_with
rest-upgrade env job (Outcome.stop r) w = refl
rest-upgrade env job Outcome.hang w = refl
rest-upgrade env job (Outcome.go (some e)) w = refl
rest-upgrade env job (Outcome.go none) w =
    Keeps-upgrade (IsAside-bind (delete_job-IsAside env job) (λ a. IsAside-stop _)) w

-- What the status that is stored gets: the fields that go into memory, and the generation.
pub stored_after_hook :
    HookPhase → Bool → ℕ → TalosUpgrade → TalosUpgradeStatus → TalosUpgradeStatus
stored_after_hook phase succeeded total u s =
    let after = after_hook phase succeeded total u.status in
    elim phase [
      | HookPhase.pre ↦ record s {
        pre_hook_index = after.pre_hook_index;
        pre_hook_failed = if succeeded then s.pre_hook_failed else true;
        observed_generation = u.generation;
      }
      | HookPhase.post ↦ record s {
        post_hook_index = after.post_hook_index;
        observed_generation = u.generation;
      }
    ]

-- The write went through, or it failed and left the stored status.
abbrev pub IsStored : Env → World → TalosUpgradeStatus → TalosUpgradeStatus → Type 0
IsStored env w expected stored =
    ((env.write_fails w.calls ≡ none) × (stored ≡ expected))
    ⊎ ((e : Error) × (env.write_fails w.calls ≡ some e) × (stored ≡ w.stored))

record_hook-stored :
    (env : Env) (phase : HookPhase) (succeeded : Bool) (total : ℕ) (w : World)
    → IsStored env w
        (stored_after_hook phase succeeded total w.upgrade w.stored)
        (record_hook env phase succeeded (hook_index w.upgrade.status phase) total w).1.stored
unfolding record_hook advance_hook_index fail_pre_hook after_hook stored_after_hook modify_status
    update_status ◌>>=◌ record_patch
record_hook-stored env HookPhase.pre true total w = elim (Option-cases (env.write_fails w.calls)) [
  | inl h ↦ inl (h, rw h)
  | inr (x, h) ↦ inr (x, h, rw h)
]
record_hook-stored env HookPhase.pre false total w = elim (Option-cases (env.write_fails w.calls)) [
  | inl h ↦ inl (h, rw h)
  | inr (x, h) ↦ inr (x, h, rw h)
]
record_hook-stored env HookPhase.post succeeded total w =
    elim (Option-cases (env.write_fails w.calls)) [
      | inl h ↦ inl (h, rw h)
      | inr (x, h) ↦ inr (x, h, rw h)
    ]

-- What follows the record leaves the stored status.
rest-stored :
    (env : Env) (job : Job) (answer : Outcome (Option Error)) (w : World)
    → (continue answer
        (λ failed. elim failed as (λ x. M ⊤) [
          | some e ↦ fail e
          | none ↦ delete_job env job >> requeue second
        ])
        w).1.stored
      ≡ w.stored
unfolding stop_with
rest-stored env job (Outcome.stop r) w = refl
rest-stored env job Outcome.hang w = refl
rest-stored env job (Outcome.go (some e)) w = refl
rest-stored env job (Outcome.go none) w =
    Keeps-stored (IsAside-bind (delete_job-IsAside env job) (λ a. IsAside-stop _)) w

-- A terminal hook job moves the sequence on by one hook: in memory, whether the write of it fails or
-- not, the index of its phase grows by one, or where a pre-hook failed it jumps to the total and the
-- run is marked; the other phase's index stays. The stored status gets the same hook fields where that
-- write goes through, and is left where it fails.
pub handle_hook_job_status-after_hook :
    (env : Env) (job : Job) (phase : HookPhase) (total : ℕ) (w : World)
    → is_terminal_job job ≡ true
    → ((handle_hook_job_status env job phase total w).1.upgrade.status
        ≡ after_hook phase (is_succeeded job) total w.upgrade.status)
      × IsStored env w
          (stored_after_hook phase (is_succeeded job) total w.upgrade w.stored)
          (handle_hook_job_status env job phase total w).1.stored
unfolding handle_hook_job_status gets ◌>>=◌
handle_hook_job_status-after_hook env job phase total w h = rw h (
  ap (λ u. u.status) (rest-upgrade env job _ _)
      ∙ record_hook-status env phase (is_succeeded job) total w,
  subst
      (λ s. IsStored env w (stored_after_hook phase (is_succeeded job) total w.upgrade w.stored) s)
      (sym (rest-stored env job _ _)) (record_hook-stored env phase (is_succeeded job) total w),
)
