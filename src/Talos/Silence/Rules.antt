-- ===== src/Talos/Silence/Rules.antt =====
-- What an action that keeps the alert silences may change, and the rules by which one is built.
use tuppr.Prelude.{
  ℕ, String, Bool, true, false, not, ◌&&◌, arith, none, List, [], ◌≡◌, refl, ap, ◌∙◌, ◌⊎◌, inl, inr,
  if◌then◌else◌,
}
use tuppr.Api.Phase.{}
use tuppr.Api.Talos.{SilenceMatcher, TalosUpgradeStatus}
use tuppr.Talos.World.{World, M, ⊤, Outcome, Effect, continue, pure, ask, gets, ◌>>=◌}
use tuppr.Talos.Phase.Patches.{IsPatch}
use tuppr.Talos.World.Effects.{Only, Only-IsFrame}
use tuppr.Talos.World.Keeps.{}
use tuppr.Talos.Silence.{}

abbrev forget : TalosUpgradeStatus → TalosUpgradeStatus
forget s = record s { alert_silence_ids = []; alert_silences_since = none }

-- The effects where the silences end: a status patch, and the end of a silence.
abbrev pub IsEndEffect : Effect → Type 0
IsEndEffect e = IsPatch e ⊎ ((id : String) × (e ≡ Effect.expire_silence id))

-- The effects of the silences: these, and the request to create or extend one.
abbrev pub IsSilenceEffect : Effect → Type 0
IsSilenceEffect e =
    IsEndEffect e ⊎ ((id : String) × (ms : List SilenceMatcher) × (e ≡ Effect.ensure_silence id ms))

-- The object in memory differs in the two fields of the silences at most, the stored status in these
-- and the observed generation, which is either left or set to the one in memory. No effect but those
-- of `P`.
unfoldable pub Silences : (Effect → Type 0) → World → World → Type 0
Silences P v w =
    (record w.upgrade { status = forget w.upgrade.status }
      ≡ record v.upgrade { status = forget v.upgrade.status })
    × (record (forget w.stored) { observed_generation = 0 }
        ≡ record (forget v.stored) { observed_generation = 0 })
    × ((w.stored.observed_generation ≡ v.stored.observed_generation)
        ⊎ (w.stored.observed_generation ≡ v.upgrade.status.observed_generation))
    × Only P v w

-- The pass neither stops nor hangs in the action.
unfoldable pub GoesOn : {A : Type 0} → Outcome A → Type 0
GoesOn (Outcome.go a) = ⊤
GoesOn (Outcome.stop r) = ⊥
GoesOn Outcome.hang = ⊥

same_generation :
    (u v : World)
    → (record v.upgrade { status = forget v.upgrade.status }
        ≡ record u.upgrade { status = forget u.upgrade.status })
    → v.upgrade.status.observed_generation ≡ u.upgrade.status.observed_generation
same_generation u v e = ap (λ x. x.status.observed_generation) e

Silences-same : (P : Effect → Type 0) (w : World) → Silences P w w
unfolding Silences
Silences-same P w = (refl, refl, inl refl, (Only-IsFrame P).same w)

generations-chain :
    {a b c d e : ℕ} → e ≡ d → (b ≡ a) ⊎ (b ≡ d) → (c ≡ b) ⊎ (c ≡ e) → (c ≡ a) ⊎ (c ≡ d)
generations-chain same (inl p) (inl q) = inl (q ∙ p)
generations-chain same (inr p) (inl q) = inr (q ∙ p)
generations-chain same _ (inr q) = inr (q ∙ same)

Silences-chain :
    (P : Effect → Type 0) (u v w : World) → Silences P u v → Silences P v w → Silences P u w
unfolding Silences
Silences-chain P u v w (a, b, c, d) (a', b', c', d') =
    (a' ∙ a, b' ∙ b, generations-chain (same_generation u v a) c c', (Only-IsFrame P).chain d d')

pub Silences-Only : (P : Effect → Type 0) (v w : World) → Silences P v w → Only P v w
unfolding Silences
Silences-Only P v w (a, b, c, d) = d

true-ne-false : true ≡ false → ⊥
true-ne-false = cc

pub record BestEffort (P : Effect → Type 0) {A : Type 0} (m : M A) : Type 0 where
  pub at : (w : World) → GoesOn (m w).0 × Silences P w (m w).1

module _ {P : Effect → Type 0} {A : Type 0} where
  pub BestEffort-pure : (a : A) → BestEffort P (pure a)
  unfolding pure GoesOn
  BestEffort-pure a = record { at = λ w. (tt, Silences-same _ w) }

  pub BestEffort-gets : (f : World → A) → BestEffort P (gets f)
  unfolding gets GoesOn
  BestEffort-gets f = record { at = λ w. (tt, Silences-same _ w) }

  pub BestEffort-ask : (f : ℕ → A) → BestEffort P (ask f)
  unfolding ask GoesOn Silences Only
  BestEffort-ask f = record { at = λ w. (tt, (refl, refl, inl refl, ([], refl, tt))) }

  pub BestEffort-if :
      (b : Bool) {m n : M A} → BestEffort P m → BestEffort P n → BestEffort P (if b then m else n)
  BestEffort-if true km kn = km
  BestEffort-if false km kn = kn

  continue-BestEffort :
      {B : Type 0} (r : Outcome A) (f : A → M B) (v w : World)
      → GoesOn r
      → Silences P v w
      → ((a : A) → BestEffort P (f a))
      → GoesOn (continue r f w).0 × Silences P v (continue r f w).1
  unfolding GoesOn
  continue-BestEffort (Outcome.stop r) f v w g s k = absurd g
  continue-BestEffort Outcome.hang f v w g s k = absurd g
  continue-BestEffort (Outcome.go a) f v w g s k =
      let (g', s') = (k a).at w in (g', Silences-chain P v w _ s s')

  pub BestEffort-bind :
      {B : Type 0} {m : M A} {f : A → M B}
      → BestEffort P m
      → ((a : A) → BestEffort P (f a))
      → BestEffort P (m >>= f)
  unfolding ◌>>=◌
  BestEffort-bind {m = m} {f} km kf = record {
    at = λ w. let (g, s) = km.at w in continue-BestEffort (m w).0 f w (m w).1 g s kf;
  }

pub and_false : (a b : Bool) → (a && b && not true) ≡ false
and_false a b = ground arith

-- A branch that is not taken.
pub BestEffort-else :
    {P : Effect → Type 0} {A : Type 0} (b : Bool) (m : M A) {n : M A}
    → b ≡ false
    → BestEffort P n
    → BestEffort P (if b then m else n)
BestEffort-else true m e k = absurd (true-ne-false e)
BestEffort-else false m e k = k
