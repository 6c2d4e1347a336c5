-- ===== src/Webhook/Compatibility/Passes.antt =====
-- Which nodes the upgrade path check lets pass, in the terms of its own helpers.
use mathlib.Core.Path.{subst}
use tuppr.Prelude.{
  ℕ, ◌≡◌, ◌↔◌, ◌⊎◌, refl, sym, ◌∙◌, arith, eq_iff, inl, inr, String, true, false, Option, none,
  some, List, [], ◌∷◌, All, str_eq, if◌then◌else◌, Bool-cases, Option-cases,
}
use tuppr.Api.Cluster.{Node, is_empty}
use tuppr.NodeUtil.{target_talos_version, talos_version_from_os_image}
use tuppr.Webhook.Compatibility.{
  Tables, NamesBy, append_name, Findings, add_unchecked, shown_name, parse_talos, TalosTarget,
  parse_talos_target, check_version, check_kubernetes, kubernetes_versions, check_path, add_path,
  check_host, check_target, check_node, check_nodes, path_error,
}
use tuppr.Webhook.Validation.{Answer, given, refused}

append_name-ne_nil : (key name : String) (m : NamesBy) → append_name key name m ≡ [] → ⊥
append_name-ne_nil key name [] h = cc
append_name-ne_nil key name ((k, names) ∷ m) h = ground arith

problems-add_unchecked :
    (target : String) (f : Findings) → (add_unchecked target f).problems ≡ f.problems
problems-add_unchecked target f = ground arith

pub Answer-cases :
    {A : Type 0} (a : Answer A) → ((e : String) × (a ≡ refused e)) ⊎ ((x : A) × (a ≡ given x))
Answer-cases (refused e) = inl (e, refl)
Answer-cases (given x) = inr (x, refl)

true-ne-false : true ≡ false → ⊥
true-ne-false = cc

-- The target of the active KubernetesUpgrade, empty where there is none.
abbrev pub kube_target_of : Option (String × String) → String
kube_target_of none = ""
kube_target_of (some (name, kube_target)) = kube_target

pub path_error_iff :
    (decimal : ℕ → String) (problems : NamesBy)
    → (path_error decimal problems ≡ none) ↔ (problems ≡ [])
unfolding path_error
path_error_iff decimal [] = ((λ h. refl), (λ h. refl))
path_error_iff decimal (p ∷ problems) = (cc, cc)

module _ {S V K : Type 0} (tables : Tables S V K) where
  -- A Kubernetes version that the tables support with a Talos version, or do not know.
  abbrev pub IsSupported : V → String → Type 0
  IsSupported version kube =
      (kube ≡ "")
      ⊎ (((e : String) × (tables.parse_kubernetes_version kube ≡ refused e))
          ⊎ ((k : K) × (tables.parse_kubernetes_version kube ≡ given k)
              × (tables.supported_with k version ≡ none)))

  check_version_iff :
      (version : V) (name kube : String) (f : Findings)
      → ((check_version tables version name kube f).problems ≡ [])
        ↔ ((f.problems ≡ []) × IsSupported version kube)
  unfolding check_version
  check_version_iff version name kube f = elim (Bool-cases (is_empty kube)) [
    | inl empty ↦ rw empty ((λ h. (h, inl ((eq_iff kube "").0 empty))), (λ h. h.0))
    | inr full ↦ elim (Answer-cases (tables.parse_kubernetes_version kube)) [
      | inl (e, h) ↦ rw (full, h) ((λ p. (p, inr (inl (e, refl)))), (λ p. p.0))
      | inr (k, h) ↦ elim (Option-cases (tables.supported_with k version)) [
        | inl fits ↦ rw (full, h, fits) ((λ p. (p, inr (inr (k, refl, fits)))), (λ p. p.0))
        | inr (e, misfit) ↦
            rw (full, h, misfit)
              (
                (λ p. absurd (append_name-ne_nil e name f.problems p)),
                (λ p. ground (arith, p.1, full, misfit, eq_iff kube "")),
              )
      ]
    ]
  ]

  check_kubernetes_iff :
      (version : V) (name : String) (kubes : List String) (f : Findings)
      → ((check_kubernetes tables version name kubes f).problems ≡ [])
        ↔ ((f.problems ≡ []) × All (IsSupported version) kubes)
  unfolding check_kubernetes
  check_kubernetes_iff version name [] f = ((λ h. (h, tt)), (λ h. h.0))
  check_kubernetes_iff version name (kube ∷ kubes) f =
      let one = check_version_iff version name kube f in
      let more =
        check_kubernetes_iff version name kubes (check_version tables version name kube f) in
      (
        (λ h. let (a, b) = more.0 h in let (c, d) = one.0 a in (c, (d, b))),
        (λ h. more.1 (one.1 (h.0, h.1.0), h.1.1)),
      )

  -- The version of a node can be upgraded to a target, where the tables know the target.
  abbrev pub IsReachable : TalosTarget tables → V → Type 0
  IsReachable tgt host = (tgt.in_tables ≡ false) ⊎ (tables.upgradeable_from tgt.version host ≡ none)

  add_path_iff :
      (current target : String) (tgt : TalosTarget tables) (sv : S) (name : String) (f : Findings)
      (failed : Option String)
      → ((add_path tables current target tgt sv name f failed).problems ≡ [])
        ↔ ((f.problems ≡ []) × (failed ≡ none))
  unfolding add_path
  add_path_iff current target tgt sv name f (some e) =
      ((λ h. absurd (append_name-ne_nil e name f.problems h)), (λ h. cc (h.1)))
  add_path_iff current target tgt sv name f none =
      elim (Bool-cases (tables.greater_than sv tgt.semver)) [
        | inl down ↦ rw down ((λ h. (h, refl)), (λ h. h.0))
        | inr up ↦ rw up ((λ h. (h, refl)), (λ h. h.0))
      ]

  check_path_iff :
      (current target : String) (tgt : TalosTarget tables) (host : S × V) (name : String)
      (f : Findings)
      → ((check_path tables current target tgt host name f).problems ≡ [])
        ↔ ((f.problems ≡ []) × IsReachable tgt host.1)
  unfolding check_path
  check_path_iff current target tgt (sv, host) name f = elim (Bool-cases tgt.in_tables) [
    | inl known ↦
        let exact =
          add_path_iff current target tgt sv name f (tables.upgradeable_from tgt.version host) in
        rw known (
          (λ h. let (a, b) = exact.0 h in (a, inr b)),
          (λ h. exact.1 (h.0, elim h.1 [ inl e ↦ absurd (true-ne-false e) | inr e ↦ e ])),
        )
    | inr unknown ↦
        let exact = add_path_iff current target tgt sv name (add_unchecked target f) none in
        let same = problems-add_unchecked target f in
        rw unknown ((λ h. (sym same ∙ (exact.0 h).0, inl refl)), (λ h. exact.1 (same ∙ h.0, refl)))
  ]

  -- What lets a node pass whose version is known: its path, and where the tables know the target,
  -- the Kubernetes versions that it runs and is upgraded to.
  abbrev pub FitsTables : TalosTarget tables → V → List String → Type 0
  FitsTables tgt host kubes =
      (tgt.in_tables ≡ false)
      ⊎ ((tables.upgradeable_from tgt.version host ≡ none) × All (IsSupported tgt.version) kubes)

  abbrev pub FitsHost : TalosTarget tables → Answer (S × V) → List String → Type 0
  FitsHost tgt host kubes =
      ((e : String) × (host ≡ refused e))
      ⊎ ((known : S × V) × (host ≡ given known) × FitsTables tgt known.1 kubes)

  given_inj : {A : Type 0} {a b : A} → given a ≡ given b → a ≡ b
  given_inj h = cc

  check_kubes_iff :
      (tgt : TalosTarget tables) (host : V) (name : String) (kubes : List String) (f g : Findings)
      → (g.problems ≡ []) ↔ ((f.problems ≡ []) × IsReachable tgt host)
      → ((if tgt.in_tables then check_kubernetes tables tgt.version name kubes g else g).problems
          ≡ [])
        ↔ ((f.problems ≡ []) × FitsTables tgt host kubes)
  check_kubes_iff tgt host name kubes f g path =
      let all = check_kubernetes_iff tgt.version name kubes g in
      elim (Bool-cases tgt.in_tables) [
        | inl known ↦ rw known (
          (λ h.
              let (a, b) = all.0 h in
              let (c, d) = path.0 a in
              (c, inr (elim d [ inl e ↦ absurd (true-ne-false (sym known ∙ e)) | inr e ↦ e ], b))),
          (λ h. elim h.1 [
            | inl e ↦ absurd (true-ne-false e)
            | inr fits ↦ all.1 (path.1 (h.0, inr fits.0), fits.1)
          ]),
        )
        | inr unknown ↦
            rw unknown ((λ h. ((path.0 h).0, inl refl)), (λ h. path.1 (h.0, inl unknown)))
      ]

  check_host_iff :
      (node : Node) (kube_target current target : String) (tgt : TalosTarget tables) (f : Findings)
      (host : Answer (S × V))
      → ((check_host tables node kube_target current target tgt f host).problems ≡ [])
        ↔ ((f.problems ≡ []) × FitsHost tgt host (kubernetes_versions tables node kube_target))
  unfolding check_host
  check_host_iff node kube_target current target tgt f (refused e) =
      ((λ h. (h, inl (e, refl))), (λ h. h.0))
  check_host_iff node kube_target current target tgt f (given host) =
      let exact =
        check_kubes_iff tgt host.1 (shown_name node) (kubernetes_versions tables node kube_target) f
          (check_path tables current target tgt host (shown_name node) f)
          (check_path_iff current target tgt host (shown_name node) f) in
      (
        (λ h. let (a, b) = exact.0 h in (a, inr (host, refl, b))),
        (λ h. exact.1 (
          h.0,
          elim h.1 [
            | inl (e, clash) ↦ cc clash
            | inr (known, same, fits) ↦ rw (given_inj same) fits
          ],
        )),
      )

  check_target_iff :
      (node : Node) (kube_target current target : String) (f : Findings)
      (parsed : Answer (TalosTarget tables))
      → ((check_target tables node kube_target current target f parsed).problems ≡ []) ↔ (
          (f.problems ≡ [])
          × ((tgt : TalosTarget tables) × (parsed ≡ given tgt)
              × FitsHost tgt
                  (parse_talos tables current)
                  (kubernetes_versions tables node kube_target)))
  unfolding check_target
  check_target_iff node kube_target current target f (refused e) = (
    (λ h. absurd (append_name-ne_nil _ (shown_name node) f.problems h)),
    (λ (h, (tgt, clash, fits)). cc clash),
  )
  check_target_iff node kube_target current target f (given tgt) =
      let exact =
        check_host_iff node kube_target current target tgt f (parse_talos tables current) in
      (
        (λ h. let (a, b) = exact.0 h in (a, (tgt, refl, b))),
        (λ (h, (other, same, fits)). exact.1 (
          h,
          subst
              (λ t.
                FitsHost t (parse_talos tables current)
                  (kubernetes_versions tables node kube_target))
              (sym (given_inj same)) fits,
        )),
      )

  -- A node passes: it is no Talos node, it is at its target, or its target can be parsed and suits
  -- it. A node whose own version cannot be parsed passes.
  abbrev pub Passes : String → String → Node → Type 0
  Passes plan_version kube_target node =
      (talos_version_from_os_image node.os_image ≡ "")
      ⊎ ((talos_version_from_os_image node.os_image ≡ target_talos_version node plan_version)
          ⊎ ((tgt : TalosTarget tables) × (parse_talos_target tables
                  (target_talos_version node plan_version)
                ≡ given tgt)
              × FitsHost tgt (parse_talos tables (talos_version_from_os_image node.os_image))
                  (kubernetes_versions tables node kube_target)))

  check_node_iff :
      (plan_version kube_target : String) (node : Node) (f : Findings)
      → ((check_node tables plan_version kube_target node f).problems ≡ [])
        ↔ ((f.problems ≡ []) × Passes plan_version kube_target node)
  unfolding check_node
  check_node_iff plan_version kube_target node f =
      let current = talos_version_from_os_image node.os_image in
      let target = target_talos_version node plan_version in
      let exact =
        check_target_iff node kube_target current target f (parse_talos_target tables target) in
      elim (Bool-cases (is_empty current)) [
        | inl foreign ↦ rw foreign ((λ h. (h, inl ((eq_iff current "").0 foreign))), (λ h. h.0))
        | inr talos ↦ elim (Bool-cases (str_eq current target)) [
          | inl there ↦
              rw (talos, there)
                ((λ h. (h, inr (inl ((eq_iff current target).0 there)))), (λ h. h.0))
          | inr other ↦
              rw (talos, other)
                (
                  (λ h. let (a, b) = exact.0 h in (a, inr (inr b))),
                  (λ h. exact.1 (
                    h.0,
                    elim h.1 [
                      | inl e ↦ absurd (true-ne-false (sym ((eq_iff current "").1 e) ∙ talos))
                      | inr (inl e) ↦
                          absurd (true-ne-false (sym ((eq_iff current target).1 e) ∙ other))
                      | inr (inr fits) ↦ fits
                    ],
                  )),
                )
        ]
      ]

  pub check_nodes_iff :
      (plan_version kube_target : String) (nodes : List Node) (f : Findings)
      → ((check_nodes tables plan_version kube_target nodes f).problems ≡ [])
        ↔ ((f.problems ≡ []) × All (Passes plan_version kube_target) nodes)
  unfolding check_nodes
  check_nodes_iff plan_version kube_target [] f = ((λ h. (h, tt)), (λ h. h.0))
  check_nodes_iff plan_version kube_target (node ∷ nodes) f =
      let one = check_node_iff plan_version kube_target node f in
      let more =
        check_nodes_iff plan_version kube_target nodes
          (check_node tables plan_version kube_target node f) in
      (
        (λ h. let (a, b) = more.0 h in let (c, d) = one.0 a in (c, (d, b))),
        (λ h. more.1 (one.1 (h.0, h.1.0), h.1.1)),
      )
