-- ===== src/Audit/Ready.antt =====
-- What `kubectl wait` sees after a phase was written.
use tuppr.Prelude.{
  ℕ, String, ◌≡◌, refl, ◌↔◌, ◌≢◌, ◌⊎◌, ◌&&◌, not, true, some, List, ◌∙◌, arith, eq_iff,
}
use tuppr.Api.Phase.{JobPhase, is_in_flight, is_failed}
use tuppr.Api.Talos.{Condition}
use tuppr.Audit.{
  ConditionLibrary, apply_conditions, progressing_type, ready_type, progressing_condition,
  ready_condition, is_initialized,
}

-- The documented contract of the two library functions: a condition that was set is found under its
-- type, and the condition of another type stays.
pub record IsConditionLibrary (lib : ConditionLibrary) : Type 0 where
  pub find-set_self : (l : List Condition) (c : Condition) → lib.find (lib.set l c) c.kind ≡ some c
  pub find-set_ne :
      (l : List Condition) (c : Condition) (k : String)
      → k ≢ c.kind
      → lib.find (lib.set l c) k ≡ lib.find l k

-- Ready is read as true for the phase.
abbrev pub IsReadyPhase : JobPhase → String → Type 0
IsReadyPhase phase reason = (phase ≢ JobPhase.failed) × ((phase ≢ JobPhase.unset) ⊎ (reason ≢ ""))

ready_status_iff :
    (phase : JobPhase) (reason : String)
    → ((is_initialized phase reason && not (is_failed phase)) ≡ true) ↔ IsReadyPhase phase reason
ready_status_iff JobPhase.unset reason = ground (arith, eq_iff reason "")
ready_status_iff phase reason = ground (arith, eq_iff reason "")

types_differ : ◌≢◌ {A = String} progressing_type ready_type
types_differ = ground (arith, eq_iff progressing_type ready_type)

-- After ApplyConditions, Progressing is True exactly in the in-flight phases, and Ready is True
-- exactly where the phase is not Failed and something was observed (a phase or a reason is given);
-- both carry the message and the generation.
pub apply_conditions_lem :
    (lib : ConditionLibrary)
    → IsConditionLibrary lib
    → (existing : List Condition) (phase : JobPhase) (reason message : String) (generation : ℕ)
    → let after = apply_conditions lib existing phase reason message generation in
      (p : Condition) × (r : Condition) × (lib.find after progressing_type ≡ some p)
      × (lib.find after ready_type ≡ some r)
      × ((p.status ≡ true) ↔ (is_in_flight phase ≡ true))
      × ((r.status ≡ true) ↔ IsReadyPhase phase reason)
      × (p.message ≡ message)
      × (r.message ≡ message)
      × (p.observed_generation ≡ generation)
      × (r.observed_generation ≡ generation)
unfolding apply_conditions
apply_conditions_lem lib laws existing phase reason message generation =
    let p = progressing_condition phase reason message generation in
    let r = ready_condition phase reason message generation in
    let l = lib.set existing p in
    (
      p,
      r,
      laws.find-set_ne l r progressing_type types_differ ∙ laws.find-set_self existing p,
      laws.find-set_self l r,
      ((λ e. e), (λ e. e)),
      ready_status_iff phase reason,
      refl,
      refl,
      refl,
      refl,
    )
