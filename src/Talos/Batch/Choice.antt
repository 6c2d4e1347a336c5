-- ===== src/Talos/Batch/Choice.antt =====
-- Which nodes nextBatch takes.
use tuppr.Prelude.{
  ℕ, zero, suc, ◌+◌, ◌≤◌, String, Bool, true, false, not, List, [], ◌∷◌, ◌++◌, ◌==◌, ◌≡◌, ◌⊎◌, inl,
  inr, refl, sym, ap, ◌∙◌, length, take, filter, ltb, All, Bool-cases, Option-cases, length-append,
  length-take_le, if◌then◌else◌, arith,
}
use tuppr.Api.Talos.{TalosUpgradeSpec}
use tuppr.Api.Cluster.{Node}
use tuppr.Talos.Batch.{get_parallelism, next_batch, next_batch_loop}
use tuppr.Talos.Nodes.{is_control_plane}
use tuppr.Talos.World.{Env, World, Outcome, ok, pure, ask, ◌>>=◌}

-- The batch by a specification: the first pending node alone where it is a control-plane node,
-- otherwise the first workers, as many as there is room for.
unfoldable pub choose : (String → Bool) → List String → ℕ → List String
choose roles [] parallelism = []
choose roles (name ∷ pending) parallelism =
    if roles name
    then name ∷ []
    else take parallelism (filter (λ n. not (roles n)) (name ∷ pending))

-- Every read of a node succeeds, and finds the role that `roles` gives it.
pub record ReadsRoles (env : Env) (roles : String → Bool) : Type 0 where
  pub read :
      (n : ℕ) (name : String)
      → (node : Node) × (env.get_node n name ≡ ok node) × (is_control_plane node ≡ roles name)

append_assoc : (xs ys zs : List String) → (xs ++ ys) ++ zs ≡ xs ++ (ys ++ zs)
append_assoc [] ys zs = refl
append_assoc (x ∷ xs) ys zs = ap (λ l. x ∷ l) (append_assoc xs ys zs)

append-nil : (xs : List String) → xs ++ [] ≡ xs
append-nil [] = refl
append-nil (x ∷ xs) = ap (λ l. x ∷ l) (append-nil xs)

full :
    (bs : List String) (name : String) (parallelism : ℕ)
    → parallelism ≡ length bs + 1
    → (length (bs ++ (name ∷ [])) == parallelism) ≡ true
full bs name parallelism p = ground (arith, length-append bs (name ∷ []))

not_full :
    (bs : List String) (name : String) (parallelism room : ℕ)
    → parallelism ≡ length bs + suc (suc room)
    → (length (bs ++ (name ∷ [])) == parallelism) ≡ false
not_full bs name parallelism room p = ground (arith, length-append bs (name ∷ []))

not_one : (room : ℕ) → (1 == suc (suc room)) ≡ false
not_one room = ground arith

one_more :
    (bs : List String) (name : String) (parallelism room : ℕ)
    → parallelism ≡ length bs + suc (suc room)
    → parallelism ≡ length (bs ++ (name ∷ [])) + suc room
one_more bs name parallelism room p = omega (arith, length-append bs (name ∷ []))

module _ (env : Env) (roles : String → Bool) (reads : ReadsRoles env roles) where
  workers : List String → List String
  workers names = filter (λ n. not (roles n)) names

  -- With room left in a batch that holds a worker, the next workers fill it.
  fill :
      (room : ℕ) (pending : List String) (parallelism : ℕ) (b : String) (bs : List String)
      (w : World)
      → parallelism ≡ length (b ∷ bs) + suc room
      → (next_batch_loop env pending parallelism (b ∷ bs) w).0
        ≡ Outcome.go (ok ((b ∷ bs) ++ take (suc room) (workers pending)))
  unfolding next_batch_loop pure ask ◌>>=◌ workers
  fill room [] parallelism b bs w p = ap (λ l. Outcome.go (ok l)) (sym (append-nil (b ∷ bs)))
  fill zero (name ∷ pending) parallelism b bs w p =
      let (node, found, role) = reads.read w.calls name in
      elim (Bool-cases (roles name)) [
        | inl cp ↦ rw (found, role, cp) (fill zero pending parallelism b bs _ p)
        | inr worker ↦ rw (found, role, worker, full (b ∷ bs) name parallelism p)
      ]
  fill (suc room) (name ∷ pending) parallelism b bs w p =
      let (node, found, role) = reads.read w.calls name in
      elim (Bool-cases (roles name)) [
        | inl cp ↦ rw (found, role, cp) (fill (suc room) pending parallelism b bs _ p)
        | inr worker ↦
            rw (found, role, worker, not_full (b ∷ bs) name parallelism room p)
              (fill room pending parallelism b (bs ++ (name ∷ [])) _
                  (one_more (b ∷ bs) name parallelism room p)
                ∙ ap (λ l. Outcome.go (ok (b ∷ l)))
                    (append_assoc bs (name ∷ []) (take (suc room) (workers pending))))
      ]

  -- nextBatch takes the batch of the specification.
  pub next_batch-choose :
      (pending : List String) (parallelism : ℕ) (w : World)
      → 1 ≤ parallelism
      → (next_batch env pending parallelism w).0
        ≡ Outcome.go (ok (choose roles pending parallelism))
  unfolding next_batch next_batch_loop pure ask ◌>>=◌ choose workers
  next_batch-choose [] parallelism w p = refl
  next_batch-choose (name ∷ pending) zero w p = absurd (omega arith)
  next_batch-choose (name ∷ pending) (suc zero) w p =
      let (node, found, role) = reads.read w.calls name in
      elim (Bool-cases (roles name)) [
        | inl cp ↦ rw (found, role, cp)
        | inr worker ↦ rw (found, role, worker)
      ]
  next_batch-choose (name ∷ pending) (suc (suc room)) w p =
      let (node, found, role) = reads.read w.calls name in
      elim (Bool-cases (roles name)) [
        | inl cp ↦ rw (found, role, cp)
        | inr worker ↦
            rw (found, role, worker, not_one room)
              (fill room pending (suc (suc room)) name [] _ (omega arith))
      ]

-- A lone control-plane node, or at most `parallelism` workers.
pub IsSafeBatch : (String → Bool) → ℕ → List String → Type 0
IsSafeBatch roles parallelism batch =
    ((name : String) × (batch ≡ name ∷ []) × (roles name ≡ true))
    ⊎ (All (λ n. roles n ≡ false) batch × (length batch ≤ parallelism))

All-take {ℓ} : {A : Type ℓ} (P : A → Type 0) (n : ℕ) (xs : List A) → All P xs → All P (take n xs)
All-take P zero xs h = tt
All-take P (suc n) [] h = tt
All-take P (suc n) (x ∷ xs) h = (h.0, All-take P n xs h.1)

workers-All :
    (roles : String → Bool) (names : List String)
    → All (λ n. roles n ≡ false) (filter (λ n. not (roles n)) names)
workers-All roles [] = tt
workers-All roles (name ∷ names) = elim (Bool-cases (roles name)) [
  | inl cp ↦ rw cp (workers-All roles names)
  | inr worker ↦ rw worker (worker, workers-All roles names)
]

choose-IsSafeBatch :
    (roles : String → Bool) (pending : List String) (parallelism : ℕ)
    → IsSafeBatch roles parallelism (choose roles pending parallelism)
unfolding choose IsSafeBatch
choose-IsSafeBatch roles [] parallelism = inr (tt, omega arith)
choose-IsSafeBatch roles (name ∷ pending) parallelism = elim (Bool-cases (roles name)) [
  | inl cp ↦ inl (name, rw cp, cp)
  | inr worker ↦
      let found : List String = name ∷ filter (λ n. not (roles n)) pending in
      inr (
        rw worker
            (All-take (λ n. roles n ≡ false) parallelism found (worker, workers-All roles pending)),
        rw worker (length-take_le parallelism found),
      )
]

parallelism_positive : (spec : TalosUpgradeSpec) → 1 ≤ get_parallelism spec
parallelism_positive spec = elim (Option-cases spec.parallelism) [
  | inl e ↦ rw e (omega arith)
  | inr (n, e) ↦ rw e (elim (Bool-cases (ltb 0 n)) [ inl h ↦ ground arith | inr h ↦ ground arith ])
]

-- Where every read of a node succeeds, nextBatch returns a batch, and it is a lone control-plane
-- node or at most `parallelism` workers: no control-plane node shares a batch.
pub next_batch-IsSafeBatch :
    (env : Env) (roles : String → Bool)
    → ReadsRoles env roles
    → (pending : List String) (spec : TalosUpgradeSpec) (w : World)
    → (batch : List String) × ((next_batch env pending (get_parallelism spec) w).0
        ≡ Outcome.go (ok batch))
      × IsSafeBatch roles (get_parallelism spec) batch
next_batch-IsSafeBatch env roles reads pending spec w = (
  choose roles pending (get_parallelism spec),
  next_batch-choose env roles reads pending (get_parallelism spec) w (parallelism_positive spec),
  choose-IsSafeBatch roles pending (get_parallelism spec),
)
