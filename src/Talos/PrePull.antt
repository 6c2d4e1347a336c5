-- ===== src/Talos/PrePull.antt =====
-- The pre-pull of installer images: internal/controller/talosupgrade/prepull.go. The timeout of a
-- pull is part of what `PullImage` answers.
pub mod Backoff
pub mod Records
use tuppr.Prelude.{
  ℕ, ◌+◌, ◌-◌, ◌*◌, ◌^◌, String, Bool, true, false, not, ◌&&◌, ◌||◌, Option, none, some, List, [],
  ◌∷◌, ◌++◌, leb, str_eq, ◌⧺◌, length, contains_func, is_nil, is_none, if◌then◌else◌,
}
use tuppr.Api.Phase.{JobPhase}
use tuppr.Api.Talos.{Duration, PrePulledNode, PrePullFailure, pre_pull_enabled}
use tuppr.Maintenance.{minute}
use tuppr.NodeUtil.{get_node_ip}
use tuppr.Talos.Image.{build_talos_upgrade_image}
use tuppr.Talos.Nodes.{get_node}
use tuppr.Talos.Phase.{set_pending_with_reason, set_phase_with_updates, report_reconcile_error}
use tuppr.Talos.Status.{Update}
use tuppr.Talos.World.{
  Env, M, ⊤, ok, err, Error, Effect, plain_error, is_unimplemented, pure, status, upgrade,
  modify_status, update_status, write, requeue, ◌>>=◌, ◌>>◌,
}

-- prePullFailureBackoff, for the attempts from 1 on that the controller counts.
unfoldable pub pre_pull_failure_backoff : ℕ → Duration
pre_pull_failure_backoff attempts =
    if leb 4 attempts then 5 * minute else minute * 2 ^ (attempts - 1)

-- prePullWork
pub record PrePullWork : Type 0 where
  pub entry : PrePulledNode
  pub node_ip : String

abbrev pub same_record : PrePulledNode → PrePulledNode → Bool
same_record a b =
    str_eq a.node_name b.node_name && str_eq a.node_uid b.node_uid && str_eq a.image b.image

-- upsertPrePulledNode
unfoldable pub upsert_pre_pulled_node : List PrePulledNode → PrePulledNode → List PrePulledNode
upsert_pre_pulled_node [] entry = entry ∷ []
upsert_pre_pulled_node (r ∷ records) entry =
    let rest = upsert_pre_pulled_node records entry in
    if str_eq r.node_name entry.node_name then entry ∷ records else r ∷ rest

-- `slices.Equal` on records.
abbrev pub same_records : List PrePulledNode → List PrePulledNode → Bool
same_records [] [] = true
same_records (a ∷ xs) (b ∷ ys) = same_record a b && same_records xs ys
same_records _ _ = false

abbrev pub next_attempt : Option PrePullFailure → ℕ
next_attempt none = 1
next_attempt (some f) = f.attempts + 1

module _ (env : Env) where
  -- clearPrePullFailure
  unfoldable pub clear_pre_pull_failure : M ⊤
  clear_pre_pull_failure = do
    s ← status
    if is_none s.pre_pull_failure then pure tt else do
      failed ← update_status env (Update.pre_pull_failure none ∷ [])
      elim failed [
        | some e ↦ pure tt
        | none ↦ modify_status (λ s. record s { pre_pull_failure = none })
      ]

  -- recordPrePulledNodes
  unfoldable pub record_pre_pulled_nodes : List PrePulledNode → M ⊤
  record_pre_pulled_nodes records = do
    s ← status
    if same_records s.pre_pulled_nodes records then pure tt else do
      modify_status (λ s. record s { pre_pulled_nodes = records })
      update_status env (Update.pre_pulled_nodes records ∷ [])
      pure tt

  -- The pulls that are outstanding, with the early returns of the first loop.
  outstanding : List String → M (List PrePullWork)
  unfolding build_talos_upgrade_image report_reconcile_error get_node_ip set_phase_with_updates
  outstanding [] = pure []
  outstanding (name ∷ names) = do
    r ← get_node env name
    elim r [
      | err e ↦ report_reconcile_error env "PrePullFailed" "get node for pre-pull" minute e
      | ok node ↦ do
        i ← build_talos_upgrade_image env name
        elim i [
          | err e ↦ report_reconcile_error env "BuildTargetImage" "build target image" minute e
          | ok image ↦ do
            s ← status
            let entry : PrePulledNode = record {
              node_name = name;
              node_uid = node.uid;
              image = image;
            }
            if contains_func (same_record entry) s.pre_pulled_nodes
                then outstanding names
                else elim (get_node_ip node) [
                  | none ↦
                      report_reconcile_error env "PrePullFailed" "get node IP" minute
                        (plain_error "no usable IP")
                  | some ip ↦ do
                    rest ← outstanding names
                    pure (record { entry = entry; node_ip = ip } ∷ rest)
                ]
        ]
    ]

  -- The end of a pass whose pull failed.
  pull_failed : PrePullWork → List PrePulledNode → Error → M ⊤
  unfolding record_pre_pulled_nodes set_phase_with_updates pre_pull_failure_backoff
  pull_failed work records e = do
    record_pre_pulled_nodes records
    s ← status
    let attempts = next_attempt s.pre_pull_failure
    let failure : PrePullFailure = record { attempts = attempts; last_error = e.text }
    set_phase_with_updates env JobPhase.pending "PrePullFailed" []
        ("Pre-pull failed on node "
          ⧺ work.entry.node_name
          ⧺ " for image "
          ⧺ work.entry.image
          ⧺ " (attempt "
          ⧺ env.decimal attempts
          ⧺ "): "
          ⧺ e.text)
        (Update.pre_pull_failure (some failure) ∷ [])
    modify_status (λ s. record s { pre_pull_failure = some failure })
    requeue (pre_pull_failure_backoff attempts)

  -- The loop over the outstanding pulls, with the records so far.
  pull_all : List PrePullWork → List PrePulledNode → M ⊤
  unfolding record_pre_pulled_nodes clear_pre_pull_failure pull_failed upsert_pre_pulled_node
  pull_all [] records = do record_pre_pulled_nodes records; clear_pre_pull_failure
  pull_all (work ∷ works) records = do
    failed ← write env (Effect.pull_image work.node_ip work.entry.image)
    elim failed [
      | none ↦ pull_all works (upsert_pre_pulled_node records work.entry)
      | some e ↦
          if is_unimplemented e
          then pull_all works (upsert_pre_pulled_node records work.entry)
          else pull_failed work records e
    ]

  attempt_suffix : Option PrePullFailure → String
  attempt_suffix none = ""
  attempt_suffix (some f) =
      " (attempt " ⧺ env.decimal (f.attempts + 1) ⧺ "; last error: " ⧺ f.last_error ⧺ ")"

  -- prePullInstallerImages
  unfoldable pub pre_pull_installer_images : List String → M ⊤
  unfolding outstanding pull_all clear_pre_pull_failure set_phase_with_updates attempt_suffix
  pre_pull_installer_images pending = do
    u ← upgrade
    if not (pre_pull_enabled u.spec) then pure tt else do
      works ← outstanding pending
      if is_nil works then clear_pre_pull_failure else do
        s ← status
        set_pending_with_reason env "PrePulling" (
            "Pre-pulling installer image on "
            ⧺ env.decimal (length works)
            ⧺ " node(s)"
            ⧺ attempt_suffix s.pre_pull_failure)
        s ← status
        pull_all works s.pre_pulled_nodes
