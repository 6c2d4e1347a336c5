-- ===== src/Talos/Silence/BestEffort.antt =====
-- The alert silences never gate a run: what a sync of them leaves, whatever Alertmanager and the API
-- server answer.
use tuppr.Prelude.{
  ℕ, String, Bool, true, not, Option, none, some, List, [], ◌∷◌, ◌≡◌, refl, inl, inr, Option-cases,
  is_nil,
}
use tuppr.Api.Phase.{JobPhase, is_active}
use tuppr.Api.Talos.{Time, Duration, SilenceSpec, SilenceMatcher}
use tuppr.Talos.World.{
  Env, World, Error, Effect, pure, ask, gets, attempt, request, modify_status, update_status,
  record_patch, ◌>>=◌,
}
use tuppr.Talos.Phase.Patches.{IsPatch, OnlyPatches}
use tuppr.Talos.World.Effects.{Only, Only-weaken}
use tuppr.Talos.World.Keeps.{Keeps}
use tuppr.Talos.Silence.{
  silence_updates, start_of_hold, after_silence_patch, patch_silence_ids, expire_silence,
  expire_all, expire_silences, is_past, hold_silence, hold_silences, extend_silences,
  sync_alert_silences,
}
use tuppr.Talos.Silence.Rules.{
  IsEndEffect, IsSilenceEffect, Silences, GoesOn, Silences-Only, BestEffort, BestEffort-pure,
  BestEffort-gets, BestEffort-ask, BestEffort-if, BestEffort-bind, BestEffort-else, and_false,
}

module _ (env : Env) (P : Effect → Type 0) (ends : (e : Effect) → IsEndEffect e → P e) where
  BestEffort-attempt : (e : Effect) (f : ℕ → Option Error) → P e → BestEffort P (attempt env e f)
  unfolding attempt GoesOn Silences Only
  BestEffort-attempt e f h = record {
    at = λ w. (tt, (refl, refl, inl refl, (e ∷ [], refl, (h, tt))));
  }

  BestEffort-request : {A : Type 0} (e : Effect) (f : ℕ → A) → P e → BestEffort P (request env e f)
  unfolding request GoesOn Silences Only
  BestEffort-request e f h = record {
    at = λ w. (tt, (refl, refl, inl refl, (e ∷ [], refl, (h, tt))));
  }

  -- The patch of patchSilenceIDs on an object with the generation of the one in memory.
  silence_patch-Silences :
      (ids : List String) (before since : Option Time) (g : ℕ) (w : World)
      → g ≡ w.upgrade.status.observed_generation
      → let (r, v) =
          (update_status env (silence_updates g ids before since)
              >>= after_silence_patch env ids since)
            w in
        GoesOn r × Silences P w v
  unfolding update_status record_patch after_silence_patch modify_status pure ◌>>=◌ GoesOn Silences
      Only
  silence_patch-Silences [] before since g w e = elim (Option-cases (env.write_fails w.calls)) [
    | inl h ↦
        rw h (
          tt,
          (refl, refl, inr e, (Effect.patch_status _ ∷ [], refl, (ends _ (inl (_, refl)), tt))),
        )
    | inr (x, h) ↦ rw h (tt, (refl, refl, inl refl, ([], refl, tt)))
  ]
  silence_patch-Silences (id ∷ ids) none since g w e =
      elim (Option-cases (env.write_fails w.calls)) [
        | inl h ↦ rw h (
          tt,
          (refl, refl, inr e, (Effect.patch_status _ ∷ [], refl, (ends _ (inl (_, refl)), tt))),
        )
        | inr (x, h) ↦ rw h (tt, (refl, refl, inl refl, ([], refl, tt)))
      ]
  silence_patch-Silences (id ∷ ids) (some t) since g w e =
      elim (Option-cases (env.write_fails w.calls)) [
        | inl h ↦ rw h (
          tt,
          (refl, refl, inr e, (Effect.patch_status _ ∷ [], refl, (ends _ (inl (_, refl)), tt))),
        )
        | inr (x, h) ↦ rw h (tt, (refl, refl, inl refl, ([], refl, tt)))
      ]

  held_from :
      (ids : List String) (before : Option Time) (g : ℕ) (w : World)
      → g ≡ w.upgrade.status.observed_generation
      → let (r, v) =
          (start_of_hold env ids before >>= λ since.
          update_status env (silence_updates g ids before since)
          >>= after_silence_patch env ids since)
            w in
        GoesOn r × Silences P w v
  unfolding start_of_hold pure ask ◌>>=◌ GoesOn Silences Only
  held_from [] before g w e = silence_patch-Silences [] before none g w e
  held_from (id ∷ ids) (some t) g w e = silence_patch-Silences (id ∷ ids) (some t) (some t) g w e
  held_from (id ∷ ids) none g w e = silence_patch-Silences (id ∷ ids) none _ g _ e

  patch_silence_ids-BestEffort : (ids : List String) → BestEffort P (patch_silence_ids env ids)
  unfolding patch_silence_ids gets ◌>>=◌
  patch_silence_ids-BestEffort ids = record { at = λ w. held_from ids _ _ w refl }

  expire_silence-BestEffort : (id : String) → BestEffort P (expire_silence env id)
  unfolding expire_silence
  expire_silence-BestEffort id =
      BestEffort-if _ (BestEffort-pure _) (
        BestEffort-bind (BestEffort-attempt _ _ (ends _ (inr (id, refl)))) (λ a. BestEffort-pure _))

  expire_all-BestEffort : (ids : List String) → BestEffort P (expire_all env ids)
  unfolding expire_all
  expire_all-BestEffort [] = BestEffort-pure _
  expire_all-BestEffort (id ∷ ids) =
      BestEffort-bind (expire_silence-BestEffort id) (λ a. expire_all-BestEffort ids)

  expire_silences-BestEffort : (ids : List String) → BestEffort P (expire_silences env ids)
  unfolding expire_silences
  expire_silences-BestEffort ids =
      BestEffort-if (is_nil ids) (BestEffort-pure _)
        (BestEffort-bind (expire_all-BestEffort ids) (λ a. patch_silence_ids-BestEffort []))

  is_past-BestEffort : (since : Option Time) (d : Duration) → BestEffort P (is_past env since d)
  unfolding is_past
  is_past-BestEffort none d = BestEffort-pure _
  is_past-BestEffort (some t) d = BestEffort-bind (BestEffort-ask _) (λ a. BestEffort-pure _)

  abbrev Leases : Type 0
  Leases = (id : String) (ms : List SilenceMatcher) → P (Effect.ensure_silence id ms)

  hold_silence-BestEffort :
      (leases : Leases) (p : JobPhase) (since : Option Time) (spec : SilenceSpec) (id : String)
      → BestEffort P (hold_silence env p since spec id)
  unfolding hold_silence
  hold_silence-BestEffort leases p since spec id = BestEffort-if _ (BestEffort-pure _) (
      BestEffort-bind (is_past-BestEffort since _) (λ past.
        BestEffort-if past (BestEffort-pure _)
          (BestEffort-bind (BestEffort-request _ _ (leases _ _)) (λ r. BestEffort-pure _))))

  hold_silences-BestEffort :
      (leases : Leases) (p : JobPhase) (since : Option Time) (specs : List SilenceSpec)
      (ids : List String)
      → BestEffort P (hold_silences env p since specs ids)
  unfolding hold_silences
  hold_silences-BestEffort leases p since [] ids = BestEffort-pure _
  hold_silences-BestEffort leases p since (spec ∷ specs) ids =
      BestEffort-bind (hold_silence-BestEffort leases p since spec _) (λ id.
        BestEffort-bind (hold_silences-BestEffort leases p since specs _)
          (λ rest. BestEffort-pure _))

  extend_silences-BestEffort :
      (leases : Leases) (p : JobPhase) (since : Option Time) (specs : List SilenceSpec)
      (ids : List String)
      → BestEffort P (extend_silences env p since specs ids)
  unfolding extend_silences
  extend_silences-BestEffort leases p since specs ids =
      BestEffort-bind (expire_all-BestEffort _) (λ a.
        BestEffort-bind (hold_silences-BestEffort leases p since specs ids)
          (λ held. BestEffort-if _ (BestEffort-pure _) (patch_silence_ids-BestEffort _)))

  synced : Leases → (suspended : Bool) → BestEffort P (sync_alert_silences env suspended)
  unfolding sync_alert_silences
  synced leases suspended = BestEffort-bind (BestEffort-gets _) (λ u.
      BestEffort-if _ (BestEffort-if _ (BestEffort-pure _) (patch_silence_ids-BestEffort [])) (
        BestEffort-if _
          (extend_silences-BestEffort leases u.status.phase u.status.alert_silences_since
            u.spec.silences u.status.alert_silence_ids)
          (expire_silences-BestEffort u.status.alert_silence_ids)))

  -- Nothing is held for a suspended plan.
  synced_suspended : BestEffort P (sync_alert_silences env true)
  unfolding sync_alert_silences
  synced_suspended = BestEffort-bind (BestEffort-gets _) (λ u.
      BestEffort-if _ (BestEffort-if _ (BestEffort-pure _) (patch_silence_ids-BestEffort [])) (
        BestEffort-else _ _ (and_false (not (is_nil u.spec.silences)) (is_active u.status.phase))
          (expire_silences-BestEffort u.status.alert_silence_ids)))

module _ (env : Env) where
  -- Whatever Alertmanager and the API server answer, syncAlertSilences lets the pass go on. It changes
  -- the object in memory in the identifiers and the start of the hold alone, and the stored status in
  -- these and the observed generation, which it leaves or sets to the one that the object in memory has.
  -- It has no effect but status patches, requests to create or extend a silence, and the end of
  -- silences.
  pub sync_alert_silences-Silences :
      (suspended : Bool) (w : World)
      → GoesOn (sync_alert_silences env suspended w).0
        × Silences IsSilenceEffect w (sync_alert_silences env suspended w).1
  sync_alert_silences-Silences suspended w =
      (synced env IsSilenceEffect (λ e h. inl h) (λ id ms. inr (id, ms, refl)) suspended).at w

  pub sync_alert_silences-Only : Keeps (Only IsEndEffect) (sync_alert_silences env true)
  sync_alert_silences-Only = record {
    at = λ w.
        Silences-Only IsEndEffect w (sync_alert_silences env true w).1
          ((synced_suspended env IsEndEffect (λ e h. h)).at w).1;
  }

pub OnlyPatches-OnlySilences : (v w : World) → OnlyPatches v w → Only IsEndEffect v w
unfolding OnlyPatches
OnlyPatches-OnlySilences v w h = Only-weaken IsPatch IsEndEffect (λ e p. inl p) v w h
