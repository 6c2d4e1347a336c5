-- ===== src/Coordination/Blocking.antt =====
-- The check, exactly.
use tuppr.Prelude.{
  String, ◌≡◌, refl, ◌↔◌, ◌⊎◌, false, none, some, List, [], ◌∷◌, All, arith, eq_iff,
}
use tuppr.Api.Phase.{is_active, is_pending}
use tuppr.Coordination.{
  Plan, Verdict, UpgradeType, first_active, first_active_other, first_active_or_pending,
  other_talos, waiting_talos, check_other_talos, after_kubernetes, is_another_upgrade_active,
  is_talos_upgrade_blocking, is_kubernetes_upgrade_blocking,
}

abbrev pub IsIdle : Plan → Type 0
IsIdle p = is_active p.phase ≡ false

abbrev pub IsIdleOrNamed : String → Plan → Type 0
IsIdleOrNamed name p = (p.name ≡ name) ⊎ (is_active p.phase ≡ false)

abbrev pub IsNotQueued : Plan → Type 0
IsNotQueued p = (is_active p.phase ≡ false) × (is_pending p.phase ≡ false)

first_active-none : (l : List Plan) → first_active l ≡ none → All IsIdle l
unfolding first_active
first_active-none [] e = tt
first_active-none (p ∷ l) e = ground (arith, first_active-none l)

idle-first_active : (l : List Plan) → All IsIdle l → first_active l ≡ none
unfolding first_active
idle-first_active [] h = refl
idle-first_active (p ∷ l) h = ground (arith, idle-first_active l h.1)

first_active_other-none :
    (c : String) (l : List Plan) → first_active_other c l ≡ none → All (IsIdleOrNamed c) l
unfolding first_active_other
first_active_other-none c [] e = tt
first_active_other-none c (p ∷ l) e = ground (arith, eq_iff p.name c, first_active_other-none c l)

idle-first_active_other :
    (c : String) (l : List Plan) → All (IsIdleOrNamed c) l → first_active_other c l ≡ none
unfolding first_active_other
idle-first_active_other c [] h = refl
idle-first_active_other c (p ∷ l) h =
    ground (arith, eq_iff p.name c, idle-first_active_other c l h.1)

queued-none : (l : List Plan) → first_active_or_pending l ≡ none → All IsNotQueued l
unfolding first_active_or_pending
queued-none [] e = tt
queued-none (p ∷ l) e = ground (arith, queued-none l)

none-queued : (l : List Plan) → All IsNotQueued l → first_active_or_pending l ≡ none
unfolding first_active_or_pending
none-queued [] h = refl
none-queued (p ∷ l) h = ground (arith, none-queued l h.1)

-- Where both lists of plans could be read, a TalosUpgrade may go on exactly when no
-- KubernetesUpgrade is active and every TalosUpgrade that is active bears its own name.
pub talos-free_iff :
    (kubernetes_plans talos_plans : List Plan) (current : String)
    → (is_another_upgrade_active
          (some kubernetes_plans)
          (some talos_plans)
          current
          UpgradeType.talos
        ≡ Verdict.free)
      ↔ (All IsIdle kubernetes_plans × All (IsIdleOrNamed current) talos_plans)
unfolding is_another_upgrade_active is_talos_upgrade_blocking after_kubernetes check_other_talos
    other_talos
talos-free_iff ks ts c = (
  (λ e. ground (arith, first_active-none ks, first_active_other-none c ts)),
  (λ h. ground (arith, idle-first_active ks h.0, idle-first_active_other c ts h.1)),
)

-- Where both lists of plans could be read, a KubernetesUpgrade may go on exactly when no TalosUpgrade
-- is active or Pending.
pub kubernetes-free_iff :
    (kubernetes_plans talos_plans : List Plan) (current : String)
    → (is_another_upgrade_active
          (some kubernetes_plans)
          (some talos_plans)
          current
          UpgradeType.kubernetes
        ≡ Verdict.free)
      ↔ All IsNotQueued talos_plans
unfolding is_another_upgrade_active is_kubernetes_upgrade_blocking waiting_talos
kubernetes-free_iff ks ts c =
    ((λ e. ground (arith, queued-none ts)), (λ h. ground (arith, none-queued ts h)))
