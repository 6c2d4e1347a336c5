-- ===== src/Talos/Phase/Patches.antt =====
-- A phase transition has no effect but a status patch.
use tuppr.Prelude.{String, Option, none, some, List, [], ◌∷◌, ◌≡◌, inl, inr, refl, Option-cases}
use tuppr.Api.Phase.{JobPhase}
use tuppr.Api.Talos.{TalosUpgradeStatus}
use tuppr.Talos.Status.{Update}
use tuppr.Talos.World.{Env, World, Error, Effect, modify_status, update_status, record_patch}
use tuppr.Talos.World.Effects.{Only, Only-IsFrame}
use tuppr.Talos.World.Keeps.{
  Keeps, IsFrame, Keeps-pure, Keeps-ask, Keeps-gets, Keeps-bind, Keeps-if,
}
use tuppr.Talos.Phase.{after_patch, set_phase_with_updates}

abbrev pub IsPatch : Effect → Type 0
IsPatch e = (us : List Update) × (e ≡ Effect.patch_status us)

-- The effects since `v` are patches of the status.
unfoldable pub OnlyPatches : World → World → Type 0
OnlyPatches v w = Only IsPatch v w

pub OnlyPatches-IsFrame : IsFrame OnlyPatches
unfolding OnlyPatches
OnlyPatches-IsFrame = Only-IsFrame IsPatch

modify_status-OnlyPatches :
    (f : TalosUpgradeStatus → TalosUpgradeStatus) → Keeps OnlyPatches (modify_status f)
unfolding modify_status OnlyPatches Only
modify_status-OnlyPatches f = record { at = λ w. ([], refl, tt) }

module _ (env : Env) where
  update_status-OnlyPatches : (us : List Update) → Keeps OnlyPatches (update_status env us)
  unfolding update_status record_patch OnlyPatches Only
  update_status-OnlyPatches us = record {
    at = λ w. elim (Option-cases (env.write_fails w.calls)) [
      | inl h ↦ rw h (Effect.patch_status _ ∷ [], refl, ((_, refl), tt))
      | inr (x, h) ↦ rw h ([], refl, tt)
    ];
  }

  after_patch-OnlyPatches :
      (failed : Option Error) (f : TalosUpgradeStatus → TalosUpgradeStatus)
      → Keeps OnlyPatches (after_patch env failed f)
  unfolding after_patch
  after_patch-OnlyPatches (some e) f = Keeps-pure OnlyPatches-IsFrame _
  after_patch-OnlyPatches none f =
      Keeps-bind OnlyPatches-IsFrame _ _ (modify_status-OnlyPatches f)
        (λ a. Keeps-pure OnlyPatches-IsFrame _)

  pub set_phase_with_updates-OnlyPatches :
      (p : JobPhase) (reason : String) (nodes : List String) (text : String) (extra : List Update)
      → Keeps OnlyPatches (set_phase_with_updates env p reason nodes text extra)
  unfolding set_phase_with_updates
  set_phase_with_updates-OnlyPatches p reason nodes text extra =
      let frame = OnlyPatches-IsFrame in
      Keeps-bind frame _ _ (Keeps-gets frame _) (λ u. Keeps-if frame _ _ _ (Keeps-pure frame _) (
        Keeps-bind frame _ _ (Keeps-ask frame _) (λ now.
          Keeps-bind frame _ _ (update_status-OnlyPatches _)
            (λ failed. after_patch-OnlyPatches failed _))))
