-- ===== src/Talos/Silence.antt =====
-- The alert silences of a run (internal/controller/talosupgrade/silence.go). Alertmanager answers
-- `ensure_silence`, which is recorded as a request; events, their once-only memory and the time limit of the calls are left out.

pub mod BestEffort
pub mod Rules
use tuppr.Prelude.{
  ℕ, ◌+◌, ◌*◌, String, Bool, true, false, not, ◌&&◌, Option, none, some, List, [], ◌∷◌, ltb, str_eq,
  contains_func, is_nil, if◌then◌else◌,
}
use tuppr.Api.Phase.{JobPhase, is_active, is_in_flight}
use tuppr.Api.Cluster.{is_empty}
use tuppr.Api.Talos.{Time, Duration, SilenceSpec}
use tuppr.Maintenance.{hour}
use tuppr.Talos.Phase.{same_names}
use tuppr.Talos.Status.{Update}
use tuppr.Talos.World.{
  Env, M, ⊤, Result, ok, err, Error, Effect, pure, ask, upgrade, modify_status, attempt, request,
  update_status, ◌>>=◌, ◌>>◌,
}

-- silenceDefaultMaxDuration
abbrev pub silence_default_max_duration : Duration
silence_default_max_duration = 4 * hour

abbrev pub max_duration_of : SilenceSpec → Duration
max_duration_of spec = elim spec.max_duration [ none ↦ silence_default_max_duration | some d ↦ d ]

-- `newIDs[i]`, where `newIDs` is as long as the specs.
abbrev pub first_id : List String → String
first_id [] = ""
first_id (id ∷ ids) = id

abbrev pub other_ids : List String → List String
other_ids [] = []
other_ids (id ∷ ids) = ids

-- `ids[min(len(specs), len(ids)):]`
abbrev pub leftover : List SilenceSpec → List String → List String
leftover [] ids = ids
leftover (spec ∷ specs) ids = leftover specs (other_ids ids)

-- The identifier that stands after Ensure answered.
abbrev pub ensured : String → Result String → String
ensured id (err e) = id
ensured id (ok new) = if is_empty new then id else new

-- Placeholders only are not persisted.
abbrev pub persisted : List String → List String
persisted ids = if contains_func (λ id. not (is_empty id)) ids then ids else []

-- The updates of patchSilenceIDs, with the start of the hold.
abbrev pub silence_updates : ℕ → List String → Option Time → Option Time → List Update
silence_updates generation ids before after =
    if is_nil ids
    then Update.observed_generation generation
      ∷ Update.alert_silence_ids []
      ∷ Update.alert_silences_since none
      ∷ []
    else elim before [
      | some t ↦ Update.observed_generation generation ∷ Update.alert_silence_ids ids ∷ []
      | none ↦
          Update.observed_generation generation
          ∷ Update.alert_silence_ids ids
          ∷ Update.alert_silences_since after
          ∷ []
    ]

module _ (env : Env) where
  -- `&now`, where the hold begins with this patch.
  start_of_hold : List String → Option Time → M (Option Time)
  start_of_hold [] since = pure none
  start_of_hold (id ∷ ids) (some t) = pure (some t)
  start_of_hold (id ∷ ids) none = do now ← ask env.now; pure (some now)

  -- patchSilenceIDs past the patch.
  after_silence_patch : List String → Option Time → Option Error → M ⊤
  after_silence_patch ids since (some e) = pure tt
  after_silence_patch ids since none =
      modify_status (λ s. record s { alert_silence_ids = ids; alert_silences_since = since })

  -- patchSilenceIDs
  unfoldable pub patch_silence_ids : List String → M ⊤
  unfolding start_of_hold after_silence_patch
  patch_silence_ids ids = do
    u ← upgrade
    since ← start_of_hold ids u.status.alert_silences_since
    failed ←
        update_status env
          (silence_updates u.status.observed_generation ids u.status.alert_silences_since since)
    after_silence_patch ids since failed

  -- expireSilence
  unfoldable pub expire_silence : String → M ⊤
  expire_silence id =
      if is_empty id
      then pure tt
      else do attempt env (Effect.expire_silence id) env.write_fails; pure tt

  expire_all : List String → M ⊤
  unfolding expire_silence
  expire_all [] = pure tt
  expire_all (id ∷ ids) = do expire_silence id; expire_all ids

  -- expireSilences
  unfoldable pub expire_silences : List String → M ⊤
  unfolding expire_all patch_silence_ids
  expire_silences ids = if is_nil ids then pure tt else do expire_all ids; patch_silence_ids []

  -- Whether a hold is past its limit.
  is_past : Option Time → Duration → M Bool
  is_past none limit = pure false
  is_past (some since) limit = do now ← ask env.now; pure (ltb (since + limit) now)

  -- One round of the loop of syncAlertSilences.
  hold_silence : JobPhase → Option Time → SilenceSpec → String → M String
  unfolding is_past
  hold_silence phase since spec id = if is_empty id && not (is_in_flight phase) then pure id else do
    past ← is_past since (max_duration_of spec)
    if past then pure id else do
      r ← request env (Effect.ensure_silence id spec.matchers) (λ n. env.ensure_silence n id)
      pure (ensured id r)

  -- The loop.
  hold_silences : JobPhase → Option Time → List SilenceSpec → List String → M (List String)
  unfolding hold_silence
  hold_silences phase since [] ids = pure []
  hold_silences phase since (spec ∷ specs) ids = do
    id ← hold_silence phase since spec (first_id ids)
    rest ← hold_silences phase since specs (other_ids ids)
    pure (id ∷ rest)

  -- syncAlertSilences where the silences are held.
  extend_silences : JobPhase → Option Time → List SilenceSpec → List String → M ⊤
  unfolding expire_all hold_silences patch_silence_ids
  extend_silences phase since specs ids = do
    expire_all (leftover specs ids)
    held ← hold_silences phase since specs ids
    if same_names ids (persisted held) then pure tt else patch_silence_ids (persisted held)

  -- syncAlertSilences
  unfoldable pub sync_alert_silences : Bool → M ⊤
  unfolding patch_silence_ids expire_silences extend_silences
  sync_alert_silences suspended = do
    u ← upgrade
    let ids = u.status.alert_silence_ids
    if not env.config.has_silencer
        then (if is_nil ids then pure tt else patch_silence_ids [])
        else (if not (is_nil u.spec.silences) && is_active u.status.phase && not suspended
            then extend_silences u.status.phase u.status.alert_silences_since u.spec.silences ids
            else expire_silences ids)
