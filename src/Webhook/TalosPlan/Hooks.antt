-- ===== src/Webhook/TalosPlan/Hooks.antt =====
-- Which hooks and which parallelism the webhook of TalosUpgrade accepts.
use mathlib.Core.Path.{}
use tuppr.Prelude.{
  ℕ, suc, ◌≤◌, ◌≡◌, ◌≢◌, ◌↔◌, ◌⊎◌, refl, arith, eq_iff, String, false, Option, none, some, List, [],
  ◌∷◌, All, contains, length,
}
use tuppr.Api.Cluster.{Node, is_empty}
use tuppr.Api.Phase.{}
use tuppr.Api.Kubernetes.{}
use tuppr.Api.Talos.{HookSpec, HooksSpec}
use tuppr.Webhook.Compatibility.{}
use tuppr.Webhook.Compatibility.Passes.{}
use tuppr.Webhook.Compatibility.Path.{}
use tuppr.Webhook.KubernetesPlan.Admitted.{}
use tuppr.Webhook.TalosPlan.{hook_list_loop, validate_hook_list, validate_hooks, parallelism_error}
use tuppr.Webhook.Validation.{}
use tuppr.Webhook.Validation.Valid.{both, reject_if_iff}
use tuppr.Webhook.Version.{}

-- A hook with a name and an image.
pub record IsComplete (h : HookSpec) : Type 0 where
  pub name : is_empty h.name ≡ false
  pub image : is_empty h.image ≡ false

abbrev pub AreDistinct : List HookSpec → Type 0
AreDistinct [] = Unit
AreDistinct (h ∷ hooks) = All (λ g. h.name ≢ g.name) hooks × AreDistinct hooks

-- Hooks that are complete and whose names are distinct.
abbrev pub AreHooks : List HookSpec → Type 0
AreHooks hooks = All IsComplete hooks × AreDistinct hooks

abbrev pub AreUnseen : List String → List HookSpec → Type 0
AreUnseen seen hooks = All (λ h. contains seen h.name ≡ false) hooks

pub unseen_cons :
    (name g : String) (seen : List String)
    → (contains (name ∷ seen) g ≡ false) ↔ ((contains seen g ≡ false) × (name ≢ g))
unseen_cons name g seen =
    ((λ h. ground (arith, eq_iff g name)), (λ h. ground (arith, h.0, h.1, eq_iff g name)))

pub AreUnseen-cons :
    (name : String) (seen : List String) (hooks : List HookSpec)
    → AreUnseen (name ∷ seen) hooks ↔ (AreUnseen seen hooks × All (λ g. name ≢ g.name) hooks)
AreUnseen-cons name seen [] = ((λ h. (tt, tt)), (λ h. tt))
AreUnseen-cons name seen (g ∷ hooks) =
    let more = AreUnseen-cons name seen hooks in
    let one = unseen_cons name g.name seen in
    (
      (λ h. let (a, b) = more.0 h.1 in let (c, d) = one.0 h.0 in ((c, a), (d, b))),
      (λ h. (one.1 (h.0.0, h.1.0), more.1 (h.0.1, h.1.1))),
    )

pub hook_list_loop_iff :
    (decimal : ℕ → String) (path : String) (i : ℕ) (seen : List String) (hooks : List HookSpec)
    → (hook_list_loop decimal path i seen hooks ≡ none)
      ↔ (All IsComplete hooks × (AreUnseen seen hooks × AreDistinct hooks))
unfolding hook_list_loop
hook_list_loop_iff decimal path i seen [] = ((λ h. (tt, (tt, tt))), (λ h. refl))
hook_list_loop_iff decimal path i seen (h ∷ hooks) =
    let exact =
      both _ _
        (both _ _
          (both _ _ (reject_if_iff (is_empty h.name) _) (reject_if_iff (is_empty h.image) _))
          (reject_if_iff (contains seen h.name) _))
        (hook_list_loop_iff decimal path (suc i) (h.name ∷ seen) hooks) in
    let cons = AreUnseen-cons h.name seen hooks in
    (
      (λ e.
          let (((named, imaged), unseen), (complete, (new, distinct))) = exact.0 e in
          let (old, apart) = cons.0 new in
          (
            (record { name = named; image = imaged }, complete),
            ((unseen, old), (apart, distinct)),
          )),
      (λ e.
          exact.1
            (((e.0.0.name, e.0.0.image), e.1.0.0), (e.0.1, (cons.1 (e.1.0.1, e.1.1.0), e.1.1.1)))),
    )

pub validate_hook_list_iff :
    (decimal : ℕ → String) (path : String) (hooks : List HookSpec)
    → (validate_hook_list decimal path hooks ≡ none) ↔ AreHooks hooks
unfolding validate_hook_list
validate_hook_list_iff decimal path hooks =
    let exact = hook_list_loop_iff decimal path 0 [] hooks in
    ((λ h. let (a, (b, c)) = exact.0 h in (a, c)), (λ h. exact.1 (h.0, (unseen_all hooks, h.1))))
  where
    unseen_all : (hooks : List HookSpec) → AreUnseen [] hooks
    unseen_all [] = tt
    unseen_all (h ∷ hooks) = (refl, unseen_all hooks)

-- Both lists of hooks.
abbrev pub HaveHooks : Option HooksSpec → Type 0
HaveHooks none = Unit
HaveHooks (some hooks) = AreHooks hooks.pre × AreHooks hooks.post

pub validate_hooks_iff :
    (decimal : ℕ → String) (hooks : Option HooksSpec)
    → (validate_hooks decimal hooks ≡ none) ↔ HaveHooks hooks
unfolding validate_hooks
validate_hooks_iff decimal none = ((λ h. tt), (λ h. refl))
validate_hooks_iff decimal (some hooks) =
    both _ _ (validate_hook_list_iff decimal _ hooks.pre)
      (validate_hook_list_iff decimal _ hooks.post)

-- At least one node at a time, and no more than are selected where some are.
abbrev pub IsInRange : Option ℕ → List Node → Type 0
IsInRange none nodes = Unit
IsInRange (some n) nodes = (1 ≤ n) × ((length nodes ≡ 0) ⊎ (n ≤ length nodes))

pub parallelism_error_iff :
    (decimal : ℕ → String) (p : Option ℕ) (nodes : List Node)
    → (parallelism_error decimal p nodes ≡ none) ↔ IsInRange p nodes
unfolding parallelism_error
parallelism_error_iff decimal none nodes = ((λ h. tt), (λ h. refl))
parallelism_error_iff decimal (some n) nodes =
    ((λ h. ground arith), (λ h. ground (arith, h.0, h.1)))
