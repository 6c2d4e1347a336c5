-- ===== src/Talos/Start/Drained.antt =====
-- What a batch has behind it when its jobs are created.
use tuppr.Prelude.{
  ℕ, suc, String, true, Option, none, some, List, [], ◌∷◌, ◌++◌, ◌≡◌, inl, inr, refl, ◌⧺◌, All,
  Option-cases,
}
use tuppr.Api.Talos.{}
use tuppr.Maintenance.{minute}
use tuppr.Talos.Batch.{NodeImage}
use tuppr.Talos.Start.{set_unschedulable, drain_node, uncordon_all, drain_all}
use tuppr.Talos.World.{
  Env, World, M, ⊤, Outcome, Error, Effect, Reply, wrap, wrap_option, continue, pure, ask, attempt,
  requeue, stop_with, ◌>>=◌, ◌>>◌,
}

-- Some call for the node's evictions answered without an error.
abbrev pub IsDrained : Env → NodeImage → Type 0
IsDrained env ni = (n : ℕ) × (env.drain_node n ni.node_name ≡ none)

go_some : {A : Type 0} {a : A} → Outcome.go (some a) ≡ Outcome.go none → ⊥
go_some h = cc

stop_go : {A : Type 0} {r : Reply} {a : A} → Outcome.stop r ≡ Outcome.go a → ⊥
stop_go h = cc

hang_go : {A : Type 0} {a : A} → Outcome.hang ≡ Outcome.go a → ⊥
hang_go h = cc

-- What stops does not go on.
stops :
    {A B : Type 0} (answer : Outcome A) (r : Reply) (w : World) {b : B}
    → (continue answer (λ a. stop_with r) w).0 ≡ Outcome.go b
    → ⊥
unfolding stop_with
stops (Outcome.stop s) r w h = stop_go h
stops Outcome.hang r w h = hang_go h
stops (Outcome.go a) r w h = stop_go h

module _ (env : Env) where
  after_cordon :
      (name : String) (answer : Outcome (Option Error)) (w : World)
      → (continue answer
          (λ cordoned. elim cordoned as (λ x. M (Option Error)) [
            | some e ↦ pure (some (wrap ("failed to cordon node " ⧺ name) e))
            | none ↦
                ask (λ n. env.evictable_volumes n name)
                >> (attempt env (Effect.evict_pods name) (λ n. env.drain_node n name) >>= λ failed.
                    pure (wrap_option ("failed to drain node " ⧺ name) failed))
          ])
          w).0
        ≡ Outcome.go none
      → (n : ℕ) × (env.drain_node n name ≡ none)
  unfolding pure ask attempt ◌>>=◌
  after_cordon name (Outcome.stop r) w h = absurd (stop_go h)
  after_cordon name Outcome.hang w h = absurd (hang_go h)
  after_cordon name (Outcome.go (some e)) w h = absurd (go_some h)
  after_cordon name (Outcome.go none) w h =
      elim (Option-cases (env.drain_node (suc w.calls) name)) [
        | inl drained ↦ (suc w.calls, drained)
        | inr (e, failed) ↦ absurd (go_some (rw failed at h))
      ]

  drain_node-none :
      (name : String) (w : World)
      → (drain_node env name w).0 ≡ Outcome.go none
      → (n : ℕ) × (env.drain_node n name ≡ none)
  unfolding drain_node ◌>>=◌
  drain_node-none name w h =
      after_cordon name (set_unschedulable env name true w).0 (set_unschedulable env name true w).1
        h

  -- One node of the loop: the drain of a node that fails ends the pass.
  after_drain :
      (batch : List NodeImage) (rollback drained : List String) (answer : Outcome (Option Error))
      (w : World)
      → (continue answer
          (λ failed. elim failed as (λ x. M ⊤) [
            | some e ↦ uncordon_all env rollback >> requeue minute
            | none ↦ drain_all env batch drained
          ])
          w).0
        ≡ Outcome.go tt
      → (answer ≡ Outcome.go none) × ((drain_all env batch drained w).0 ≡ Outcome.go tt)
  unfolding ◌>>=◌
  after_drain batch rollback drained (Outcome.stop r) w h = absurd (stop_go h)
  after_drain batch rollback drained Outcome.hang w h = absurd (hang_go h)
  after_drain batch rollback drained (Outcome.go (some e)) w h =
      absurd (stops (uncordon_all env rollback w).0 _ _ h)
  after_drain batch rollback drained (Outcome.go none) w h = (refl, h)

  -- If the drains of a batch let the pass go on to its jobs, every node of the batch was drained: some
  -- call for its evictions answered without an error.
  pub drain_all-All :
      (batch : List NodeImage) (drained : List String) (w : World)
      → (drain_all env batch drained w).0 ≡ Outcome.go tt
      → All (IsDrained env) batch
  unfolding drain_all ◌>>=◌
  drain_all-All [] drained w h = tt
  drain_all-All (ni ∷ batch) drained w h =
      let (answered, rest) =
        after_drain batch (drained ++ (ni.node_name ∷ [])) (drained ++ (ni.node_name ∷ []))
          (drain_node env ni.node_name w).0 (drain_node env ni.node_name w).1 h in
      (
        drain_node-none ni.node_name w answered,
        drain_all-All batch (drained ++ (ni.node_name ∷ [])) (drain_node env ni.node_name w).1 rest,
      )
