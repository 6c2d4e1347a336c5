-- ===== src/Webhook/TalosPlan/Target.antt =====
-- Which Kubernetes version activeKubernetesUpgrade gives the upgrade path check.
use mathlib.Core.Path.{}
use tuppr.Prelude.{inl, inr, Bool-cases, ◌≡◌, refl, String, true, false, List, [], ◌∷◌}
use tuppr.Api.Cluster.{}
use tuppr.Api.Phase.{is_active}
use tuppr.Api.Kubernetes.{KubernetesUpgrade}
use tuppr.Api.Talos.{}
use tuppr.Webhook.Compatibility.{}
use tuppr.Webhook.Compatibility.Passes.{kube_target_of}
use tuppr.Webhook.Compatibility.Path.{}
use tuppr.Webhook.KubernetesPlan.Admitted.{}
use tuppr.Webhook.TalosPlan.{active_kubernetes_upgrade}
use tuppr.Webhook.Validation.{Answer, given, refused}
use tuppr.Webhook.Validation.Valid.{}
use tuppr.Webhook.Version.{}

-- The Kubernetes version of the first active plan, empty where none is active.
pub data IsFirstTarget : List KubernetesUpgrade → String → Type 0 where
  no_plan : IsFirstTarget [] ""
  active :
      {k : KubernetesUpgrade} {plans : List KubernetesUpgrade}
      → is_active k.status.phase ≡ true
      → IsFirstTarget (k ∷ plans) k.spec.kubernetes.version
  idle :
      {k : KubernetesUpgrade} {plans : List KubernetesUpgrade} {target : String}
      → is_active k.status.phase ≡ false
      → IsFirstTarget plans target
      → IsFirstTarget (k ∷ plans) target

-- The same of the plans that were listed, or of none where the list failed.
abbrev pub IsTarget : Answer (List KubernetesUpgrade) → String → Type 0
IsTarget (refused e) kube_target = kube_target ≡ ""
IsTarget (given plans) kube_target = IsFirstTarget plans kube_target

pub IsFirstTarget-first :
    (plans : List KubernetesUpgrade)
    → IsFirstTarget plans (kube_target_of (active_kubernetes_upgrade plans))
IsFirstTarget-first [] = IsFirstTarget.no_plan
IsFirstTarget-first (k ∷ plans) = elim (Bool-cases (is_active k.status.phase)) [
  | inl on ↦ rw on (IsFirstTarget.active on)
  | inr off ↦ rw off (IsFirstTarget.idle off (IsFirstTarget-first plans))
]

pub IsFirstTarget-only :
    (plans : List KubernetesUpgrade) (kube_target : String)
    → IsFirstTarget plans kube_target
    → kube_target ≡ kube_target_of (active_kubernetes_upgrade plans)
IsFirstTarget-only [] kube_target IsFirstTarget.no_plan = refl
IsFirstTarget-only (k ∷ plans) kube_target (IsFirstTarget.active on) = rw on refl
IsFirstTarget-only (k ∷ plans) kube_target (IsFirstTarget.idle off h) =
    rw off (IsFirstTarget-only plans kube_target h)
