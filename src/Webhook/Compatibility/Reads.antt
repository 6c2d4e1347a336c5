-- ===== src/Webhook/Compatibility/Reads.antt =====
-- How parse_talos and is_in_tables answer, in terms of the semver library and the tables alone.
use mathlib.Core.Path.{}
use tuppr.Prelude.{
  ◌≡◌, ◌↔◌, refl, ap, sym, ◌∙◌, inl, inr, String, Bool, true, false, Option, none, some, ◌⧺◌,
  Bool-cases,
}
use tuppr.Prelude.Text.{trim_prefix}
use tuppr.Api.Cluster.{}
use tuppr.NodeUtil.{}
use tuppr.Webhook.Compatibility.{Tables, parse_talos, is_none_text, is_in_tables}
use tuppr.Webhook.Compatibility.Passes.{Answer-cases}
use tuppr.Webhook.KubernetesPlan.Admitted.{}
use tuppr.Webhook.Validation.{Answer, given, refused}
use tuppr.Webhook.Version.{}

pub given_inj : {A : Type 0} {a b : A} → given a ≡ given b → a ≡ b
given_inj h = cc

given_refused : {A : Type 0} {a : A} {e : String} → given a ≡ refused e → ⊥
given_refused h = cc

abbrev given_pair : {A B : Type 0} → A → B → Answer (A × B)
given_pair a b = given (a, b)

given_pair-eq : {A B : Type 0} {a c : A} {b d : B} → a ≡ c → b ≡ d → given_pair a b ≡ given_pair c d
given_pair-eq {c = c} {b} p q = ap (λ x. given_pair x b) p ∙ ap (given_pair c) q

module _ {S V K : Type 0} (tables : Tables S V K) where
  -- Both parsers read the text.
  abbrev pub Reads : String → S → V → Type 0
  Reads text sv v =
      (tables.strict_new_version (trim_prefix text "v") ≡ given sv)
      × (tables.parse_talos_version text ≡ given v)

  -- The tables accept an upgrade to the version from its own minor.
  abbrev pub Knows : S → V → Type 0
  Knows sv v =
      (s : S) × (probe : V) × Reads
        ("v" ⧺ tables.major sv ⧺ "." ⧺ tables.minor sv ⧺ ".0-tuppr.probe") s probe
      × (tables.upgradeable_from v probe ≡ none)

  -- parse_talos on the two answers.
  abbrev pair_of : Answer S → Answer V → Answer (S × V)
  pair_of a b = elim a [
    | refused e ↦ refused e
    | given sv ↦ elim b [ refused e ↦ refused e | given version ↦ given (sv, version) ]
  ]

  pair_of-given :
      (a : Answer S) (b : Answer V) (x : S × V)
      → (pair_of a b ≡ given x) ↔ ((a ≡ given x.0) × (b ≡ given x.1))
  pair_of-given (refused e) b x = ((λ h. cc h), (λ h. cc (h.0)))
  pair_of-given (given s) (refused e) x = ((λ h. cc h), (λ h. cc (h.1)))
  pair_of-given (given s) (given v) x = (
    (λ h. let same = given_inj h in (ap (λ p. given (p.0)) same, ap (λ p. given (p.1)) same)),
    (λ (one, two). given_pair-eq (given_inj one) (given_inj two)),
  )

  pub parse_talos_iff :
      (text : String) (sv : S) (v : V) → (parse_talos tables text ≡ given (sv, v)) ↔ Reads text sv v
  parse_talos_iff text sv v =
      pair_of-given (tables.strict_new_version (trim_prefix text "v"))
        (tables.parse_talos_version text) (sv, v)

  is_none_text_iff : (o : Option String) → (is_none_text tables o ≡ true) ↔ (o ≡ none)
  unfolding is_none_text
  is_none_text_iff none = ((λ h. refl), (λ h. refl))
  is_none_text_iff (some e) = ((λ h. cc h), (λ h. cc h))

  -- is_in_tables on the parsed probe.
  abbrev known_from : V → Answer (S × V) → Bool
  known_from v a = elim a [
    | refused e ↦ false
    | given (s, probe) ↦ is_none_text tables (tables.upgradeable_from v probe)
  ]

  known_from_iff :
      (v : V) (a : Answer (S × V))
      → (known_from v a ≡ true) ↔ (
          (s : S) × (probe : V) × (a ≡ given (s, probe)) × (tables.upgradeable_from v probe ≡ none))
  known_from_iff v (refused e) = ((λ h. cc h), (λ (s, probe, h, g). cc h))
  known_from_iff v (given (s, probe)) = (
    (λ h. (s, probe, refl, (is_none_text_iff _).0 h)),
    (λ (s', probe', h, g).
        (is_none_text_iff _).1
          (ap (λ (x : S × V). tables.upgradeable_from v (x.1)) (given_inj h) ∙ g)),
  )

  is_in_tables_iff : (sv : S) (v : V) → (is_in_tables tables sv v ≡ true) ↔ Knows sv v
  unfolding is_in_tables
  is_in_tables_iff sv v =
      let probe = "v" ⧺ tables.major sv ⧺ "." ⧺ tables.minor sv ⧺ ".0-tuppr.probe" in
      let exact = known_from_iff v (parse_talos tables probe) in
      (
        (λ h. let (s, p, e, g) = exact.0 h in (s, p, (parse_talos_iff probe s p).0 e, g)),
        (λ (s, p, e, g). exact.1 (s, p, (parse_talos_iff probe s p).1 e, g)),
      )

  pub is_in_tables-false : (sv : S) (v : V) → (is_in_tables tables sv v ≡ false) ↔ (¬ (Knows sv v))
  is_in_tables-false sv v =
      let exact = is_in_tables_iff sv v in
      (
        (λ h k. cc (h, exact.1 k)),
        (λ no_way. elim (Bool-cases (is_in_tables tables sv v)) [
          | inl t ↦ absurd (no_way (exact.0 t))
          | inr f ↦ f
        ]),
      )

  pub refused_iff :
      (text : String)
      → ((e : String) × (parse_talos tables text ≡ refused e))
        ↔ (¬ ((s : S) × (h : V) × Reads text s h))
  refused_iff text = (
    (λ (e, bad) (s, h, r). given_refused (sym ((parse_talos_iff text s h).1 r) ∙ bad)),
    (λ unread. elim (Answer-cases (parse_talos tables text)) [
      | inl bad ↦ bad
      | inr (x, e) ↦ absurd (unread (x.0, x.1, (parse_talos_iff text (x.0) (x.1)).0 e))
    ]),
  )
