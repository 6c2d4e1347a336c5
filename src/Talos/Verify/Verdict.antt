-- ===== src/Talos/Verify/Verdict.antt =====
-- When verifyNodeUpgrade takes a node for upgraded.
use tuppr.Prelude.{
  suc, String, true, false, none, some, ◌≡◌, ◌⊎◌, inl, inr, refl, ap, str_eq, str_eq→eq, Bool-cases,
  Option-cases,
}
use tuppr.Api.Cluster.{Node}
use tuppr.NodeUtil.{get_node_ip, target_talos_version}
use tuppr.Talos.Nodes.{}
use tuppr.Talos.Verify.{compare_version, verify_at, verify_node_upgrade}
use tuppr.Talos.World.{
  Env, World, Outcome, Result, ok, err, Error, is_transient, pure, ask, gets, ◌>>=◌,
}

-- What the three calls answered: the node has an address, the Talos API finds it ready, and its
-- version is the target.
pub record IsVerified (env : Env) (name : String) (w : World) : Type 0 where
  pub node : Node
  pub ip : String
  pub read : env.get_node w.calls name ≡ ok node
  pub address : get_node_ip node ≡ some ip
  pub ready : env.check_node_ready (suc w.calls) ip ≡ none
  pub version :
      env.get_node_version (suc (suc w.calls)) ip
      ≡ ok (target_talos_version node w.upgrade.spec.talos.version)

err_ok : {A : Type 0} {e : Error} {a : A} → err e ≡ ok a → ⊥
err_ok h = cc

go_err : {A : Type 0} {e : Error} {a : A} → Outcome.go (err e) ≡ Outcome.go (ok a) → ⊥
go_err h = cc

not_true : ok false ≡ ok true → ⊥
not_true h = cc

go_not_true : Outcome.go (ok false) ≡ Outcome.go (ok true) → ⊥
go_not_true h = cc

Result-cases : {A : Type 0} (r : Result A) → ((e : Error) × (r ≡ err e)) ⊎ ((a : A) × (r ≡ ok a))
Result-cases (err e) = inl (e, refl)
Result-cases (ok a) = inr (a, refl)

go_inj : {A : Type 0} {a b : A} → Outcome.go a ≡ Outcome.go b → a ≡ b
go_inj e = cc

compare_version-true :
    (env : Env) (name target : String) (answer : Result String)
    → compare_version env name target answer ≡ ok true
    → answer ≡ ok target
unfolding compare_version
compare_version-true env name target (err e) h = elim (Bool-cases (is_transient e)) [
  | inl t ↦ absurd (not_true (rw t at h))
  | inr t ↦ absurd (err_ok (rw t at h))
]
compare_version-true env name target (ok current) h = elim (Bool-cases (str_eq current target)) [
  | inl same ↦ ap (λ v. ok v) (str_eq→eq current target same)
  | inr other ↦ absurd (err_ok (rw other at h))
]

module _ (env : Env) (name : String) where
  -- If verifyNodeUpgrade answers that the node is ready, the node's address is known, the Talos API
  -- finds it ready and reports the target version.
  pub verify_node_upgrade-IsVerified :
      (w : World)
      → (verify_node_upgrade env name w).0 ≡ Outcome.go (ok true)
      → IsVerified env name w
  unfolding verify_node_upgrade verify_at pure ask gets ◌>>=◌
  verify_node_upgrade-IsVerified w h = elim (Result-cases (env.get_node w.calls name)) [
    | inl (e, r) ↦ absurd (go_err (rw r at h))
    | inr (node, r) ↦ elim (Option-cases (get_node_ip node)) [
      | inl a ↦ absurd (go_err (rw (r, a) at h))
      | inr (ip, a) ↦ elim (Option-cases (env.check_node_ready (suc w.calls) ip)) [
        | inr (e, c) ↦ elim (Bool-cases (is_transient e)) [
          | inl t ↦ absurd (go_not_true (rw (r, a, c, t) at h))
          | inr t ↦ absurd (go_err (rw (r, a, c, t) at h))
        ]
        | inl c ↦ record {
          node = node;
          ip = ip;
          read = r;
          address = a;
          ready = c;
          version = compare_version-true env name _ _ (go_inj (rw (r, a, c) at h));
        }
      ]
    ]
  ]
