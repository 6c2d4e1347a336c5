-- ===== src/Webhook/Compatibility/Path.antt =====
-- Which plans the upgrade path check refuses, in terms of the semver library and the tables alone.
use mathlib.Core.Path.{subst}
use tuppr.Prelude.{
  ℕ, ◌≡◌, ◌↔◌, ◌⊎◌, refl, ap, sym, ◌∙◌, eq_iff, inl, inr, String, true, Option, none, some, List,
  [], ◌∷◌, All, str_eq, Bool-cases,
}
use tuppr.Prelude.Text.{}
use tuppr.Api.Cluster.{Node, is_empty}
use tuppr.NodeUtil.{target_talos_version, talos_version_from_os_image}
use tuppr.Webhook.Compatibility.{
  Tables, no_findings, parse_talos, TalosTarget, is_in_tables, parse_talos_target,
  kubernetes_versions, check_nodes, path_error, validate_upgrade_path,
}
use tuppr.Webhook.Compatibility.Passes.{
  Answer-cases, kube_target_of, path_error_iff, IsSupported, FitsHost, Passes, check_nodes_iff,
}
use tuppr.Webhook.KubernetesPlan.Admitted.{validate_version_format_iff}
use tuppr.Webhook.Validation.{Answer, given, refused}
use tuppr.Webhook.Version.{is_version, validate_version_format}
use tuppr.Webhook.Compatibility.Reads.{
  given_inj, Reads, Knows, parse_talos_iff, is_in_tables-false, refused_iff,
}

module _ {S V K : Type 0} (tables : Tables S V K) where
  -- The tables accept the way from the host's version, and the Kubernetes versions of the node and of
  -- the active KubernetesUpgrade.
  abbrev pub Suits : V → V → String → String → Type 0
  Suits v host kubelet kube_target =
      (tables.upgradeable_from v host ≡ none)
      × (IsSupported tables v kubelet)
      × (IsSupported tables v kube_target)

  -- A node passes: it runs no Talos, or its target; or its target can be read, and the tables do not
  -- know it, or the version of the node cannot be read, or the tables accept it.
  abbrev pub HasPath : String → String → Node → Type 0
  HasPath plan_version kube_target node =
      (talos_version_from_os_image node.os_image ≡ "")
      ⊎ ((talos_version_from_os_image node.os_image ≡ target_talos_version node plan_version)
          ⊎ ((sv : S) × (v : V) × (is_version (target_talos_version node plan_version) ≡ true)
              × Reads tables (target_talos_version node plan_version) sv v
              × ((¬ (Knows tables sv v))
                  ⊎ ((¬ (
                        (s : S) × (h : V) × Reads tables (talos_version_from_os_image node.os_image)
                          s h))
                      ⊎ ((s : S) × (h : V) × Reads tables
                            (talos_version_from_os_image node.os_image) s h
                          × Suits v h node.kubelet_version kube_target)))))

  -- The Kubernetes versions of a node, each looked at once.
  kubernetes_versions_iff :
      (v : V) (node : Node) (kube_target : String)
      → (All (IsSupported tables v) (kubernetes_versions tables node kube_target))
        ↔ (IsSupported tables v node.kubelet_version × IsSupported tables v kube_target)
  kubernetes_versions_iff v node kube_target = elim (Bool-cases (is_empty kube_target)) [
    | inl e ↦ rw e ((λ h. (h.0, inl ((eq_iff kube_target "").0 e))), (λ h. (h.0, tt)))
    | inr ne ↦ elim (Bool-cases (str_eq kube_target node.kubelet_version)) [
      | inl e ↦
          rw (ne, e)
            (
              (λ h. (h.0, rw ((eq_iff kube_target node.kubelet_version).0 e) (h.0))),
              (λ h. (h.0, tt)),
            )
      | inr other ↦ rw (ne, other) ((λ h. (h.0, h.1.0)), (λ h. (h.0, (h.1, tt))))
    ]
  ]

  target_of : S → V → TalosTarget tables
  target_of sv v = record { semver = sv; version = v; in_tables = is_in_tables tables sv v }

  -- parse_talos_target on the two answers.
  abbrev target_from : Option String → Answer (S × V) → Answer (TalosTarget tables)
  target_from bad a = elim bad [
    | some e ↦ refused e
    | none ↦ elim a [ refused e ↦ refused e | given (sv, v) ↦ given (target_of sv v) ]
  ]

  target_from-given :
      (bad : Option String) (a : Answer (S × V)) (tgt : TalosTarget tables)
      → (target_from bad a ≡ given tgt)
        ↔ ((sv : S) × (v : V) × (bad ≡ none) × (a ≡ given (sv, v)) × (target_of sv v ≡ tgt))
  target_from-given (some e) a tgt = ((λ h. cc h), (λ (sv, v, h, k, l). cc h))
  target_from-given none (refused e) tgt = ((λ h. cc h), (λ (sv, v, h, k, l). cc k))
  target_from-given none (given (sv, v)) tgt = (
    (λ h. (sv, v, refl, refl, given_inj h)),
    (λ (sv', v', h, k, l).
        ap (λ (x : S × V). given (target_of (x.0) (x.1))) (given_inj k) ∙ ap given l),
  )

  parse_talos_target_iff :
      (target : String) (tgt : TalosTarget tables)
      → (parse_talos_target tables target ≡ given tgt) ↔ (
          (sv : S) × (v : V) × (is_version target ≡ true)
          × Reads tables target sv v
          × (target_of sv v ≡ tgt))
  unfolding parse_talos_target target_of
  parse_talos_target_iff target tgt =
      let exact =
        target_from-given (validate_version_format target) (parse_talos tables target) tgt in
      let format = validate_version_format_iff target in
      (
        (λ h.
            let (sv, v, a, b, c) = exact.0 h in
            (sv, v, format.0 a, (parse_talos_iff tables target sv v).0 b, c)),
        (λ (sv, v, a, b, c).
            exact.1 (sv, v, format.1 a, (parse_talos_iff tables target sv v).1 b, c)),
      )

  -- What is asked of a node whose target was read.
  abbrev Accepts : S → V → String → String → String → Type 0
  Accepts sv v current kubelet kube_target =
      (¬ (Knows tables sv v))
      ⊎ ((¬ ((s : S) × (h : V) × Reads tables current s h))
          ⊎ ((s : S) × (h : V) × Reads tables current s h × Suits v h kubelet kube_target))

  fits_iff :
      (sv : S) (v : V) (current : String) (node : Node) (kube_target : String)
      → (FitsHost tables
          (target_of sv v)
          (parse_talos tables current)
          (kubernetes_versions tables node kube_target))
        ↔ Accepts sv v current node.kubelet_version kube_target
  unfolding target_of
  fits_iff sv v current node kube_target =
      let unread = refused_iff tables current in
      let unknown = is_in_tables-false tables sv v in
      let kubes = kubernetes_versions_iff v node kube_target in
      (
        (λ h. elim h [
          | inl bad ↦ inr (inl (unread.0 bad))
          | inr (x, e, inl f) ↦ inl (unknown.0 f)
          | inr (x, e, inr fits) ↦
              let (a, b) = kubes.0 (fits.1) in
              inr (inr (x.0, x.1, (parse_talos_iff tables current (x.0) (x.1)).0 e, (fits.0, a, b)))
        ]),
        (λ h. elim h [
          | inl no_way ↦ elim (Answer-cases (parse_talos tables current)) [
            | inl bad ↦ inl bad
            | inr (x, e) ↦ inr (x, e, inl (unknown.1 no_way))
          ]
          | inr (inl un) ↦ inl (unread.1 un)
          | inr (inr (s, k, r, (up, a, b))) ↦
              inr ((s, k), (parse_talos_iff tables current s k).1 r, inr (up, kubes.1 (a, b)))
        ]),
      )

  Passes-iff :
      (plan_version kube_target : String) (node : Node)
      → Passes tables plan_version kube_target node ↔ HasPath plan_version kube_target node
  Passes-iff plan_version kube_target node =
      let current = talos_version_from_os_image node.os_image in
      let target = target_talos_version node plan_version in
      (
        (λ h. elim h [
          | inl e ↦ inl e
          | inr (inl e) ↦ inr (inl e)
          | inr (inr (tgt, parsed, fits)) ↦
              let (sv, v, ok_version, r, same) = (parse_talos_target_iff target tgt).0 parsed in
              inr (
                inr (
                  sv,
                  v,
                  ok_version,
                  r,
                  (fits_iff sv v current node kube_target).0 (
                      subst
                        (λ t.
                          FitsHost tables t (parse_talos tables current)
                            (kubernetes_versions tables node kube_target))
                        (sym same) fits),
                ))
        ]),
        (λ h. elim h [
          | inl e ↦ inl e
          | inr (inl e) ↦ inr (inl e)
          | inr (inr (sv, v, ok_version, r, fits)) ↦ inr (
              inr (
                target_of sv v,
                (parse_talos_target_iff target (target_of sv v)).1 (sv, v, ok_version, r, refl),
                (fits_iff sv v current node kube_target).1 fits,
              ))
        ]),
      )

  All_iff :
      (plan_version kube_target : String) (nodes : List Node)
      → All (Passes tables plan_version kube_target) nodes
        ↔ All (HasPath plan_version kube_target) nodes
  All_iff plan_version kube_target [] = ((λ h. tt), (λ h. tt))
  All_iff plan_version kube_target (node ∷ nodes) =
      let one = Passes-iff plan_version kube_target node in
      let more = All_iff plan_version kube_target nodes in
      ((λ (a, b). (one.0 a, more.0 b)), (λ (a, b). (one.1 a, more.1 b)))

  -- validateUpgradePath lets a plan pass exactly when each of the nodes passes: it runs no Talos, or
  -- runs its target; or the target of the node has the format and both parsers read it, and one of
  -- these holds: the tables refuse the probe of the target's own minor, so that they do not know the
  -- target; the version of the node cannot be read; or the tables accept the way from it to the target,
  -- and support with the target the Kubernetes version of the node's kubelet and that of the active
  -- KubernetesUpgrade, where these are not empty and can be read.
  pub validate_upgrade_path_iff :
      (decimal : ℕ → String) (active : Option (String × String)) (plan_version : String)
      (nodes : List Node)
      → ((validate_upgrade_path tables decimal active plan_version nodes).1 ≡ none)
        ↔ All (HasPath plan_version (kube_target_of active)) nodes
  unfolding validate_upgrade_path
  validate_upgrade_path_iff decimal active plan_version nodes =
      let f = check_nodes tables plan_version (kube_target_of active) nodes no_findings in
      let exact = check_nodes_iff tables plan_version (kube_target_of active) nodes no_findings in
      let spelt = All_iff plan_version (kube_target_of active) nodes in
      let shown = path_error_iff decimal f.problems in
      (
        (λ h. spelt.0 ((exact.0 (shown.0 (sym (same active) ∙ h))).1)),
        (λ h. same active ∙ shown.1 (exact.1 (refl, spelt.1 h))),
      )
    where
      same :
          (active : Option (String × String))
          → (validate_upgrade_path tables decimal active plan_version nodes).1
            ≡ path_error decimal
                (check_nodes tables plan_version (kube_target_of active) nodes no_findings).problems
      same none = refl
      same (some (name, kube_target)) = refl
