-- ===== src/Talos/Outcome/Durable/Steps.antt =====
-- How each write of an outcome keeps a node durable.
use tuppr.Prelude.{
  String, Bool, true, ◌||◌, Option, none, some, List, [], ◌∷◌, ◌++◌, ◌≡◌, ◌⊎◌, inl, inr, refl, ap,
  sym, ◌∙◌, str_eq, str_eq_refl, str_eq→eq, contains_func, Bool-cases, Option-cases, arith,
  some_inj,
}
use tuppr.Api.Talos.{NodeRebootStatus, NodeUpgradeStatus}
use tuppr.Talos.Reboot.{
  is_tracked, without_first, add_completed_node, add_failed_node, save_rebooting,
  clear_reboot_tracking,
}
use tuppr.Talos.World.{
  Env, World, M, Error, Outcome, pure, gets, modify_status, update_status, record_patch, ◌>>=◌,
}
use tuppr.Talos.Outcome.Durable.{is_recorded, IsDurable}

contains_func-append {ℓ} :
    {A : Type ℓ} (p : A → Bool) (xs ys : List A)
    → contains_func p (xs ++ ys) ≡ contains_func p xs || contains_func p ys
contains_func-append p [] ys = refl
contains_func-append p (x ∷ xs) ys = elim (Bool-cases (p x)) [
  | inl h ↦ rw h
  | inr h ↦ rw (h, contains_func-append p xs ys)
]

or_left : (a b : Bool) → a ≡ true → a || b ≡ true
or_left a b h = rw h

go_inj : {A : Type 0} {a b : A} → Outcome.go a ≡ Outcome.go b → a ≡ b
go_inj e = cc

none-some : {A : Type 0} {a : A} → none ≡ some a → ⊥
none-some e = cc

-- Without the first entry of a node, the other nodes are tracked as before.
without_first-is_tracked :
    (name node : String) (es : List NodeRebootStatus) {rest : List NodeRebootStatus}
    → without_first node es ≡ some rest
    → is_tracked name es ≡ true
    → (is_tracked name rest ≡ true) ⊎ (node ≡ name)
unfolding without_first
without_first-is_tracked name node [] e t = cc
without_first-is_tracked name node (x ∷ es) {rest} e t =
    elim (Bool-cases (str_eq x.node_name node)) [
      | inl same ↦
          let tail : es ≡ rest = some_inj (rw same at e) in
          elim (Bool-cases (str_eq x.node_name name)) [
            | inl k ↦ inr (sym (str_eq→eq x.node_name node same) ∙ str_eq→eq x.node_name name k)
            | inr k ↦ inl (ap (is_tracked name) (sym tail) ∙ (rw k at t))
          ]
      | inr other ↦ elim (Option-cases (without_first node es)) [
        | inl h ↦ absurd (none-some (rw (other, h) at e))
        | inr (r, h) ↦
            let tail : x ∷ r ≡ rest = some_inj (rw (other, h) at e) in
            elim (Bool-cases (str_eq x.node_name name)) [
              | inl k ↦ inl (ap (is_tracked name) (sym tail) ∙ rw k)
              | inr k ↦ elim (without_first-is_tracked name node es h (rw k at t)) [
                | inl kept ↦ inl (ap (is_tracked name) (sym tail) ∙ rw k kept)
                | inr same ↦ inr same
              ]
            ]
      ]
    ]

module _ (env : Env) (name : String) where
  pub add_completed_node-IsDurable :
      (node : String) (w : World)
      → IsDurable name w
      → IsDurable name (add_completed_node env node w).1
  unfolding add_completed_node modify_status update_status gets ◌>>=◌ record_patch
  add_completed_node-IsDurable node w d =
      let app = contains_func-append (str_eq name) w.upgrade.status.completed_nodes (node ∷ []) in
      elim (Option-cases (env.write_fails w.calls)) [
        | inl h ↦ rw h (record {
          accounted = ground (arith, app, d.accounted, d.completed);
          completed = λ e. e;
          failed = d.failed;
          waiting = elim d.waiting [
            | inl t ↦ inl t
            | inr r ↦ inr (ground (arith, app, r, d.completed))
          ];
        })
        | inr (x, h) ↦ rw h (record {
          accounted = d.accounted;
          completed = λ e. rw app (or_left _ _ (d.completed e));
          failed = d.failed;
          waiting = d.waiting;
        })
      ]

  -- Where the write went through, the outcome is stored.
  pub add_completed_node-is_recorded :
      (node : String) (w : World)
      → (add_completed_node env node w).0 ≡ Outcome.go none
      → is_recorded node (add_completed_node env node w).1.stored ≡ true
  unfolding add_completed_node modify_status update_status gets ◌>>=◌ record_patch
  add_completed_node-is_recorded node w e =
      let app = contains_func-append (str_eq node) w.upgrade.status.completed_nodes (node ∷ []) in
      let h : env.write_fails w.calls ≡ none = go_inj e in
      rw h (ground (arith, app, str_eq_refl node))

  pub add_failed_node-IsDurable :
      (entry : NodeUpgradeStatus) (w : World)
      → IsDurable name w
      → IsDurable name (add_failed_node env entry w).1
  unfolding add_failed_node modify_status update_status gets ◌>>=◌ record_patch
  add_failed_node-IsDurable entry w d =
      let app =
        contains_func-append (λ n. str_eq n.node_name name) w.upgrade.status.failed_nodes
          (entry ∷ []) in
      elim (Option-cases (env.write_fails w.calls)) [
        | inl h ↦ rw h (record {
          accounted = ground (arith, app, d.accounted, d.failed);
          completed = d.completed;
          failed = λ e. e;
          waiting = elim d.waiting [
            | inl t ↦ inl t
            | inr r ↦ inr (ground (arith, app, r, d.failed))
          ];
        })
        | inr (x, h) ↦ rw h (record {
          accounted = d.accounted;
          completed = d.completed;
          failed = λ e. rw app (or_left _ _ (d.failed e));
          waiting = d.waiting;
        })
      ]

  pub add_failed_node-is_recorded :
      (entry : NodeUpgradeStatus) (w : World)
      → (add_failed_node env entry w).0 ≡ Outcome.go none
      → is_recorded entry.node_name (add_failed_node env entry w).1.stored ≡ true
  unfolding add_failed_node modify_status update_status gets ◌>>=◌ record_patch
  add_failed_node-is_recorded entry w e =
      let app =
        contains_func-append (λ n. str_eq n.node_name entry.node_name) w.upgrade.status.failed_nodes
          (entry ∷ []) in
      let h : env.write_fails w.calls ≡ none = go_inj e in
      rw h (ground (arith, app, str_eq_refl entry.node_name))

  still_waiting :
      (node : String) (w : World) (entries : List NodeRebootStatus)
      → without_first node w.upgrade.status.rebooting_nodes ≡ some entries
      → is_recorded node w.stored ≡ true
      → IsDurable name w
      → (is_tracked name entries ≡ true) ⊎ (is_recorded name w.stored ≡ true)
  still_waiting node w entries h stored d = elim d.waiting [
    | inr r ↦ inr r
    | inl t ↦ elim (without_first-is_tracked name node w.upgrade.status.rebooting_nodes h t) [
      | inl kept ↦ inl kept
      | inr same ↦ inr (rw same at stored)
    ]
  ]

  save_rebooting-IsDurable :
      (entries : List NodeRebootStatus) (w : World)
      → (is_tracked name entries ≡ true) ⊎ (is_recorded name w.stored ≡ true)
      → IsDurable name w
      → IsDurable name (save_rebooting env entries w).1
  unfolding save_rebooting modify_status update_status ◌>>=◌ record_patch
  save_rebooting-IsDurable entries w still d = elim (Option-cases (env.write_fails w.calls)) [
    | inl saved ↦ rw saved (record {
      accounted = elim still [ inl t ↦ ground (arith, t) | inr r ↦ ground (arith, r) ];
      completed = d.completed;
      failed = d.failed;
      waiting = still;
    })
    | inr (x, lost) ↦ rw lost (record {
      accounted = d.accounted;
      completed = d.completed;
      failed = d.failed;
      waiting = still;
    })
  ]

  -- The two cases of clearRebootTracking.
  cleared : Option (List NodeRebootStatus) → World → World
  cleared none w = w
  cleared (some entries) w = (save_rebooting env entries w).1

  cleared-IsDurable :
      (node : String) (w : World) (found : Option (List NodeRebootStatus))
      → without_first node w.upgrade.status.rebooting_nodes ≡ found
      → is_recorded node w.stored ≡ true
      → IsDurable name w
      → IsDurable name (cleared found w)
  unfolding cleared
  cleared-IsDurable node w none h stored d = d
  cleared-IsDurable node w (some entries) h stored d =
      save_rebooting-IsDurable entries w (still_waiting node w entries h stored d) d

  cleared-is :
      (found : Option (List NodeRebootStatus)) (w : World)
      → (let m : M (Option Error) = elim found [
        | none ↦ pure none
        | some entries ↦ save_rebooting env entries
      ] in
          m w).1
        ≡ cleared found w
  unfolding cleared pure
  cleared-is none w = refl
  cleared-is (some entries) w = refl

  clear-is :
      (node : String) (w : World)
      → (clear_reboot_tracking env node w).1
        ≡ cleared (without_first node w.upgrade.status.rebooting_nodes) w
  unfolding clear_reboot_tracking gets ◌>>=◌
  clear-is node w = cleared-is (without_first node w.upgrade.status.rebooting_nodes) w

  -- The entry of a node may go once its outcome is stored.
  pub clear_reboot_tracking-IsDurable :
      (node : String) (w : World)
      → is_recorded node w.stored ≡ true
      → IsDurable name w
      → IsDurable name (clear_reboot_tracking env node w).1
  clear_reboot_tracking-IsDurable node w stored d =
      rw (clear-is node w) (
        cleared-IsDurable node w (without_first node w.upgrade.status.rebooting_nodes) refl stored
          d)
