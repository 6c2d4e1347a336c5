-- ===== src/Talos/Health/Checked.antt =====
-- The nodes that the cluster health gate looks at, and what it asks of each machine.
use mathlib.Core.List.{append_assoc, append-nil}
use tuppr.Prelude.{
  ℕ, ◌≡◌, refl, ap, sym, ◌∙◌, ◌⊎◌, inl, inr, String, Bool, true, false, none, some, List, [], ◌∷◌,
  ◌++◌, Memᴰ, All, Bool-cases, Option-cases, str_eq, eq_iff, if◌then◌else◌,
}
use tuppr.Api.Cluster.{Node}
use tuppr.NodeUtil.{get_node_ip}
use tuppr.Talos.Health.{compact_from, compact, machines_ready}
use tuppr.Talos.Nodes.{is_control_plane, insert_node, sort_nodes}
use tuppr.Talos.World.{Env, World, Outcome, ask, pure, ◌>>=◌}

-- Some node of the list has the name.
abbrev pub IsAmong : List Node → Node → Type 0
IsAmong nodes node = (n : Node) × Memᴰ n nodes × (n.name ≡ node.name)

IsAmong-later : (x : Node) (nodes : List Node) (n : Node) → IsAmong nodes n → IsAmong (x ∷ nodes) n
IsAmong-later x nodes n (m, i, e) = (m, Memᴰ.tail i, e)

insert_node-first :
    (before : Node → Node → Bool) (x : Node) (ys : List Node) → Memᴰ x (insert_node before x ys)
insert_node-first before x [] = Memᴰ.head refl
insert_node-first before x (y ∷ ys) = elim (Bool-cases (before x y)) [
  | inl h ↦ rw h (Memᴰ.head refl)
  | inr h ↦ rw h (Memᴰ.tail (insert_node-first before x ys))
]

insert_node-rest :
    (before : Node → Node → Bool) (x n : Node) (ys : List Node)
    → Memᴰ n ys
    → Memᴰ n (insert_node before x ys)
insert_node-rest before x n [] m = elim m [ ]
insert_node-rest before x n (y ∷ ys) m = elim (Bool-cases (before x y)) [
  | inl h ↦ rw h (Memᴰ.tail m)
  | inr h ↦ rw h (elim m [
    | Memᴰ.head e ↦ Memᴰ.head e
    | Memᴰ.tail t ↦ Memᴰ.tail (insert_node-rest before x n ys t)
  ])
]

pub sort_nodes-keeps :
    (before : Node → Node → Bool) (n : Node) (xs : List Node)
    → Memᴰ n xs
    → Memᴰ n (sort_nodes before xs)
sort_nodes-keeps before n [] m = elim m [ ]
sort_nodes-keeps before n (x ∷ xs) (Memᴰ.head e) =
    rw e (insert_node-first before x (sort_nodes before xs))
sort_nodes-keeps before n (x ∷ xs) (Memᴰ.tail m) =
    insert_node-rest before x n (sort_nodes before xs) (sort_nodes-keeps before n xs m)

-- A node that is dropped has the name of one that is kept.
compact_from-IsAmong :
    (last n : Node) (nodes : List Node) → Memᴰ n nodes → IsAmong (last ∷ compact_from last nodes) n
compact_from-IsAmong last n [] m = elim m [ ]
compact_from-IsAmong last n (x ∷ nodes) m = elim (Bool-cases (str_eq last.name x.name)) [
  | inl h ↦ rw h (elim m [
    | Memᴰ.head e ↦ (last, Memᴰ.head refl, (eq_iff last.name x.name).0 h ∙ sym (ap (λ k. k.name) e))
    | Memᴰ.tail t ↦ compact_from-IsAmong last n nodes t
  ])
  | inr h ↦ rw h (elim m [
    | Memᴰ.head e ↦ (x, Memᴰ.tail (Memᴰ.head refl), sym (ap (λ k. k.name) e))
    | Memᴰ.tail t ↦
        IsAmong-later last (x ∷ compact_from x nodes) n (compact_from-IsAmong x n nodes t)
  ])
]

pub compact-IsAmong : (n : Node) (nodes : List Node) → Memᴰ n nodes → IsAmong (compact nodes) n
compact-IsAmong n [] m = elim m [ ]
compact-IsAmong n (x ∷ nodes) (Memᴰ.head e) = (x, Memᴰ.head refl, sym (ap (λ k. k.name) e))
compact-IsAmong n (x ∷ nodes) (Memᴰ.tail t) = compact_from-IsAmong x n nodes t

-- The addresses of the control-plane nodes, in order.
pub control_plane_ips : List Node → List String
control_plane_ips [] = []
control_plane_ips (node ∷ nodes) =
    let rest = control_plane_ips nodes in
    if is_control_plane node
    then elim (get_node_ip node) [ none ↦ rest | some ip ↦ ip ∷ rest ]
    else rest

module _ (env : Env) where
  -- The machine at the node's address answered that it is ready.
  abbrev pub IsMachineReady : Node → Type 0
  IsMachineReady node =
      (ip : String) × (n : ℕ) × (get_node_ip node ≡ some ip) × (env.check_machine_ready n ip ≡ none)

  as_ips : List String → List String ⊎ String
  as_ips ips = inl ips

  machine_step :
      (node : Node) (nodes : List Node) (ips out : List String) (ip : String) (b : Bool)
      → is_control_plane node ≡ b
      → get_node_ip node ≡ some ip
      → out ≡ (if b then ips ++ (ip ∷ []) else ips) ++ control_plane_ips nodes
      → out ≡ ips ++ control_plane_ips (node ∷ nodes)
  unfolding control_plane_ips
  machine_step node nodes ips out ip true b e h =
      rw (b, e) (h ∙ append_assoc ips (ip ∷ []) (control_plane_ips nodes))
  machine_step node nodes ips out ip false b e h = rw b h

  no_reason : {A B : Type 0} {a : A} {b : B} → Outcome.go (inr b) ≡ Outcome.go (inl a) → ⊥
  no_reason h = cc

  found_ips : (a b : List String) → Outcome.go (as_ips a) ≡ Outcome.go (as_ips b) → b ≡ a
  unfolding as_ips
  found_ips a b h = cc

  pub machines_ready-All :
      (nodes : List Node) (ips out : List String) (w : World)
      → (machines_ready env nodes ips w).0 ≡ Outcome.go (inl out)
      → All IsMachineReady nodes × (out ≡ ips ++ control_plane_ips nodes)
  unfolding as_ips machines_ready control_plane_ips pure ask ◌>>=◌
  machines_ready-All [] ips out w h = (tt, found_ips _ _ h ∙ sym (append-nil ips))
  machines_ready-All (node ∷ nodes) ips out w h = elim (Option-cases (get_node_ip node)) [
    | inl no_ip ↦ absurd (no_reason (rw (no_ip, machines_ready) at h))
    | inr (ip, has_ip) ↦ elim (Option-cases (env.check_machine_ready w.calls ip)) [
      | inr (e, failed) ↦ absurd (no_reason (rw (has_ip, failed, machines_ready) at h))
      | inl ready ↦
          let (all, same) =
            machines_ready-All nodes _ out _ (rw (has_ip, ready, machines_ready) at h) in
          (
            ((ip, w.calls, has_ip, ready), all),
            machine_step node nodes ips out ip _ refl has_ip same,
          )
    ]
  ]
