-- ===== src/Webhook/Validation/Valid.antt =====
-- What the shared checks accept, said without them.
use tuppr.Prelude.{
  ℕ, zero, suc, ◌≤◌, ◌<◌, ◌≡◌, ◌≢◌, ◌↔◌, ◌⊎◌, refl, arith, eq_iff, inl, inr, String, Bool, true,
  false, Option, none, some, List, [], ◌∷◌, All, contains, Bool-cases,
}
use tuppr.Api.Phase.{JobPhase, is_in_flight}
use tuppr.Api.Cluster.{StringMap, lookup, is_empty}
use tuppr.Api.Talos.{HealthCheckSpec, TalosctlSpec, WindowSpec, Condition}
use tuppr.Audit.{progressing_type, apply_conditions}
use tuppr.Audit.Ready.{IsConditionLibrary, apply_conditions_lem}
use tuppr.Maintenance.{week}
use tuppr.Webhook.Validation.{
  Library, Answer, given, refused, ◌then_check◌, reject_if, wrap_text, talos_secret_key, first_data,
  check_contexts, check_secret_data, check_secret, validate_talos_config_secret,
  validate_health_check, validate_health_checks, validate_maintenance_window,
  validate_maintenance_windows, validate_update_in_progress, validate_talosctl_spec,
  validate_singleton,
}

-- Two checks, each with what it accepts.
pub both {ℓ κ} :
    {P : Type ℓ} {Q : Type κ} (a b : Option String)
    → ((a ≡ none) ↔ P)
    → ((b ≡ none) ↔ Q)
    → ((a then_check b) ≡ none) ↔ (P × Q)
both none b p q = ((λ h. (p.0 refl, q.0 h)), (λ h. q.1 h.1))
both (some e) b p q = (cc, (λ h. p.1 h.0))

pub reject_if_iff : (b : Bool) (message : String) → (reject_if b message ≡ none) ↔ (b ≡ false)
reject_if_iff true message = (cc, cc)
reject_if_iff false message = ((λ h. refl), (λ h. refl))

pub wrap_text_iff :
    {P : Type 0} (prefix : String) (a : Option String)
    → ((a ≡ none) ↔ P)
    → (wrap_text prefix a ≡ none) ↔ P
wrap_text_iff prefix none p = p
wrap_text_iff prefix (some e) p = (cc, (λ h. cc (p.1 h)))

some_ne_none : {e : String} → some e ≡ none → ⊥
some_ne_none = cc

module _ (lib : Library) where
  pub record IsValidCheck (check : HealthCheckSpec) : Type 0 where
    pub api_version : is_empty check.api_version ≡ false
    pub kind : is_empty check.kind ≡ false
    pub expr : is_empty check.expr ≡ false
    pub timeout : check.timeout ≢ some 0
    pub selector :
        (check.label_selector ≡ none)
        ⊎ ((s : String) × (check.label_selector ≡ some s)
            × (is_empty check.name ≡ true)
            × (lib.parse_selector s ≡ none))

  pub record IsValidWindow (window : WindowSpec) : Type 0 where
    pub location : lib.load_location window.timezone ≡ none
    pub schedule : lib.parse_schedule window.start ≡ none
    pub positive : 0 < window.duration
    pub bounded : window.duration ≤ week

  validate_maintenance_window_iff :
      (w : WindowSpec) → (validate_maintenance_window lib w ≡ none) ↔ IsValidWindow w
  unfolding validate_maintenance_window
  validate_maintenance_window_iff w =
      ((λ h. ground arith), (λ v. ground (arith, v.location, v.schedule, v.positive, v.bounded)))

  validate_health_check_iff :
      (i : ℕ) (c : HealthCheckSpec) → (validate_health_check lib i c ≡ none) ↔ IsValidCheck c
  unfolding validate_health_check
  validate_health_check_iff i c = (
    (λ h. ground arith),
    (λ v. ground (arith, v.api_version, v.kind, v.expr, v.timeout, v.selector)),
  )

  pub validate_health_checks_iff :
      (i : ℕ) (checks : List HealthCheckSpec)
      → (validate_health_checks lib i checks ≡ none) ↔ All IsValidCheck checks
  unfolding validate_health_checks
  validate_health_checks_iff i [] = ((λ h. tt), (λ h. refl))
  validate_health_checks_iff i (c ∷ checks) =
      both _ _ (validate_health_check_iff i c) (validate_health_checks_iff (suc i) checks)

  pub validate_maintenance_windows_iff :
      (windows : List WindowSpec)
      → (validate_maintenance_windows lib windows ≡ none) ↔ All IsValidWindow windows
  unfolding validate_maintenance_windows
  validate_maintenance_windows_iff [] = ((λ h. tt), (λ h. refl))
  validate_maintenance_windows_iff (w ∷ windows) =
      both _ _ (validate_maintenance_window_iff w) (validate_maintenance_windows_iff windows)

  -- A secret with a talosconfig that has a context.
  pub record HasTalosConfig : Type 0 where
    pub named : is_empty lib.secret_name ≡ false
    pub read :
        (data_of : StringMap) × (text : String) × (n : ℕ) × (lib.get_secret ≡ given data_of)
        × (lookup talos_secret_key data_of ≡ some text)
        × (is_empty text ≡ false)
        × (lib.talosconfig_contexts text ≡ given (suc n))

  check_contexts-given :
      (a : Answer ℕ) → check_contexts lib a ≡ none → (n : ℕ) × (a ≡ given (suc n))
  unfolding check_contexts
  check_contexts-given (refused e) h = cc
  check_contexts-given (given zero) h = cc
  check_contexts-given (given (suc n)) h = (n, refl)

  check_secret_data-given :
      (o : Option String)
      → check_secret_data lib (first_data lib o o) ≡ none
      → (text : String) × (n : ℕ) × (o ≡ some text)
        × (is_empty text ≡ false)
        × (lib.talosconfig_contexts text ≡ given (suc n))
  unfolding check_secret_data first_data
  check_secret_data-given none h = cc
  check_secret_data-given (some text) h = elim (Bool-cases (is_empty text)) [
    | inl empty ↦ absurd (some_ne_none (rw empty at h))
    | inr full ↦ let (n, e) = check_contexts-given _ (rw full at h) in (text, n, refl, full, e)
  ]

  check_secret-given :
      (a : Answer StringMap)
      → check_secret lib a ≡ none
      → (data_of : StringMap) × (text : String) × (n : ℕ) × (a ≡ given data_of)
        × (lookup talos_secret_key data_of ≡ some text)
        × (is_empty text ≡ false)
        × (lib.talosconfig_contexts text ≡ given (suc n))
  unfolding check_secret
  check_secret-given (refused e) h = cc
  check_secret-given (given data_of) h =
      let (text, n, e, full, contexts) = check_secret_data-given _ h in
      (data_of, text, n, refl, e, full, contexts)

  pub validate_talos_config_secret_iff : (validate_talos_config_secret lib ≡ none) ↔ HasTalosConfig
  unfolding validate_talos_config_secret check_secret check_secret_data first_data check_contexts
  validate_talos_config_secret_iff = (
    (λ h. elim (Bool-cases (is_empty lib.secret_name)) [
      | inl empty ↦ absurd (some_ne_none (rw empty at h))
      | inr named ↦ record {
        named = named;
        read = check_secret-given lib.get_secret (rw named at h);
      }
    ]),
    (λ v.
        let (data_of, text, n, e, key, full, contexts) = v.read in
        rw (v.named, e, key, full, contexts) (ground arith)),
  )

-- An image tag stands with a repository, and the pull policy is one that Kubernetes has.
abbrev pub pull_policies : List String
pull_policies = "Always" ∷ "Never" ∷ "IfNotPresent" ∷ []

pub record IsValidTalosctl (spec : TalosctlSpec) : Type 0 where
  pub tagged : (is_empty spec.repository ≡ false) ⊎ (is_empty spec.tag ≡ true)
  pub policy : (is_empty spec.pull_policy ≡ true) ⊎ (contains pull_policies spec.pull_policy ≡ true)

pub validate_talosctl_spec_iff :
    (spec : TalosctlSpec) → (validate_talosctl_spec spec ≡ none) ↔ IsValidTalosctl spec
unfolding validate_talosctl_spec
validate_talosctl_spec_iff spec = ((λ h. ground arith), (λ v. ground (arith, v.tagged, v.policy)))

pub validate_singleton_iff :
    (kind current : String) (names : List String)
    → (validate_singleton kind current names ≡ none) ↔ All (λ name. name ≡ current) names
unfolding validate_singleton
validate_singleton_iff kind current [] = ((λ h. tt), (λ h. refl))
validate_singleton_iff kind current (name ∷ names) =
    let more = validate_singleton_iff kind current names in
    (
      (λ h. ground (arith, more.0, eq_iff name current)),
      (λ h. ground (arith, more.1, h.0, h.1, eq_iff name current)),
    )

-- What the Progressing condition says decides, whatever the phase beside it.
in_flight-apply :
    (lib : Library) (conditions : List Condition) (c : Condition) (phase : JobPhase) (same : Bool)
    → lib.conditions.find conditions progressing_type ≡ some c
    → (validate_update_in_progress lib conditions phase same ≡ none)
      ↔ ((same ≡ true) ⊎ (c.status ≡ false))
unfolding validate_update_in_progress
in_flight-apply lib conditions c phase same h =
    ((λ e. ground (arith, h)), (λ e. ground (arith, h, e)))

-- After a phase transition has written its conditions, a change of the spec is refused exactly when
-- the specs differ and the phase is in flight, whatever phase stands beside the conditions.
pub validate_update_in_progress_iff :
    (lib : Library)
    → IsConditionLibrary lib.conditions
    → (existing : List Condition) (written : JobPhase) (reason message : String) (generation : ℕ)
      (phase : JobPhase) (same : Bool)
    → (validate_update_in_progress lib
          (apply_conditions lib.conditions existing written reason message generation)
          phase
          same
        ≡ none)
      ↔ ((same ≡ true) ⊎ (is_in_flight written ≡ false))
validate_update_in_progress_iff lib laws existing written reason message generation phase same =
    let (p, r, found, other, status, e₁, e₂, e₃, e₄, e₅) =
      apply_conditions_lem lib.conditions laws existing written reason message generation in
    let decided = in_flight-apply lib _ p phase same found in
    (
      (λ h. elim (decided.0 h) [ inl e ↦ inl e | inr e ↦ inr (ground (arith, status)) ]),
      (λ h. decided.1 (elim h [ inl e ↦ inl e | inr e ↦ inr (ground (arith, status)) ])),
    )
