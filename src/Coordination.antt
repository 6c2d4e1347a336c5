-- ===== src/Coordination.antt =====
-- internal/controller/coordination/coordinator.go: which upgrade has to wait for which. A plan is
-- read as its name and its phase; a failed list is `none`.
pub mod Blocking
use tuppr.Prelude.{
  String, Bool, true, false, Option, none, some, List, [], ◌∷◌, ◌||◌, str_eq, ◌⧺◌, if◌then◌else◌,
}
use tuppr.Api.Phase.{JobPhase, is_active, is_pending}

pub record Plan : Type 0 where
  pub name : String
  pub phase : JobPhase

-- (blocked, message, err)
pub data Verdict : Type 0 where
  free : Verdict
  blocked : String → Verdict
  list_failed : Verdict

pub data UpgradeType : Type 0 where
  talos kubernetes other_type : UpgradeType

-- The first plan that is active, in the order of the list.
first_active : List Plan → Option Plan
first_active [] = none
first_active (p ∷ rest) = if is_active p.phase then some p else first_active rest

-- The same, without the plan of that name.
first_active_other : String → List Plan → Option Plan
first_active_other current [] = none
first_active_other current (p ∷ rest) =
    let later = first_active_other current rest in
    if str_eq p.name current then later else if is_active p.phase then some p else later

-- The first plan that is active or Pending.
first_active_or_pending : List Plan → Option Plan
first_active_or_pending [] = none
first_active_or_pending (p ∷ rest) =
    if is_active p.phase || is_pending p.phase then some p else first_active_or_pending rest

other_talos : Option Plan → Verdict
other_talos none = Verdict.free
other_talos (some p) =
    Verdict.blocked ("Waiting for another TalosUpgrade plan '" ⧺ p.name ⧺ "' to complete")

check_other_talos : Option (List Plan) → String → Verdict
unfolding first_active_other other_talos
check_other_talos none current = Verdict.list_failed
check_other_talos (some plans) current = other_talos (first_active_other current plans)

after_kubernetes : Option Plan → Option (List Plan) → String → Verdict
unfolding check_other_talos
after_kubernetes (some p) talos_plans current =
    Verdict.blocked ("Waiting for KubernetesUpgrade '" ⧺ p.name ⧺ "' to complete")
after_kubernetes none talos_plans current = check_other_talos talos_plans current

-- isTalosUpgradeBlocking
pub is_talos_upgrade_blocking : Option (List Plan) → Option (List Plan) → String → Verdict
unfolding first_active after_kubernetes
is_talos_upgrade_blocking none talos_plans current = Verdict.list_failed
is_talos_upgrade_blocking (some kubernetes_plans) talos_plans current =
    after_kubernetes (first_active kubernetes_plans) talos_plans current

waiting_talos : Option Plan → Verdict
waiting_talos none = Verdict.free
waiting_talos (some p) = Verdict.blocked ("Waiting for TalosUpgrade '" ⧺ p.name ⧺ "' to complete")

-- isKubernetesUpgradeBlocking
pub is_kubernetes_upgrade_blocking : Option (List Plan) → Verdict
unfolding first_active_or_pending waiting_talos
is_kubernetes_upgrade_blocking none = Verdict.list_failed
is_kubernetes_upgrade_blocking (some plans) = waiting_talos (first_active_or_pending plans)

-- IsAnotherUpgradeActive, over the lists that the API server returns.
unfoldable pub is_another_upgrade_active :
    Option (List Plan) → Option (List Plan) → String → UpgradeType → Verdict
unfolding is_talos_upgrade_blocking is_kubernetes_upgrade_blocking
is_another_upgrade_active kubernetes_plans talos_plans current UpgradeType.talos =
    is_talos_upgrade_blocking kubernetes_plans talos_plans current
is_another_upgrade_active kubernetes_plans talos_plans current UpgradeType.kubernetes =
    is_kubernetes_upgrade_blocking talos_plans
is_another_upgrade_active kubernetes_plans talos_plans current UpgradeType.other_type = Verdict.free
