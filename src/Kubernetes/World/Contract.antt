-- ===== src/Kubernetes/World/Contract.antt =====
-- What an action promises: a rule for each way to build one. `Rules` fixes an invariant of the world,
-- what a reply may be, and when a call may hang; `Meets` adds what holds of the value that the action
-- hands on.
use tuppr.Prelude.{ℕ, suc, Bool, true, false, Option, none, some, ◌≡◌, refl, if◌then◌else◌}
use tuppr.Talos.World.{Outcome, Reply, Result, ok, err, Error}
use tuppr.Kubernetes.World.{World, M, continue, pure, stop_with, never_return, ask, gets, ◌>>=◌}

pub record Rules : Type 1 where
  pub invariant : World → Type 0
  pub reply : Reply → Type 0
  pub hanging : Type 0
  pub call : (w : World) (n : ℕ) → invariant w → invariant (record w { calls = n })

module _ (ρ : Rules) where
  abbrev pub Yields : {A : Type 0} → (A → Type 0) → Outcome A → Type 0
  Yields Q (Outcome.stop r) = ρ.reply r
  Yields Q Outcome.hang = ρ.hanging
  Yields Q (Outcome.go a) = Q a

  pub record Meets {A : Type 0} (Q : A → Type 0) (m : M A) : Type 0 where
    pub at : (w : World) → ρ.invariant w → ρ.invariant (m w).1 × Yields Q (m w).0

  Yields-weaken :
      {A : Type 0} {P Q : A → Type 0}
      → ((a : A) → P a → Q a)
      → (r : Outcome A) → Yields P r
      → Yields Q r
  Yields-weaken weaker (Outcome.stop r) h = h
  Yields-weaken weaker Outcome.hang h = h
  Yields-weaken weaker (Outcome.go a) h = weaker a h

module _ {ρ : Rules} where
  module _ {A : Type 0} {Q : A → Type 0} where
    pub Meets-pure : (a : A) → Q a → Meets ρ Q (pure a)
    unfolding pure
    Meets-pure a q = record { at = λ w i. (i, q) }

    pub Meets-stop_with : (r : Reply) → ρ.reply r → Meets ρ Q (stop_with r)
    unfolding stop_with
    Meets-stop_with r h = record { at = λ w i. (i, h) }

    pub Meets-never_return : ρ.hanging → Meets ρ Q never_return
    unfolding never_return
    Meets-never_return h = record { at = λ w i. (i, h) }

    pub Meets-ask : (f : ℕ → A) → ((n : ℕ) → Q (f n)) → Meets ρ Q (ask f)
    unfolding ask
    Meets-ask f q = record { at = λ w i. (ρ.call w (suc w.calls) i, q w.calls) }

    pub Meets-gets : (f : World → A) → ((w : World) → ρ.invariant w → Q (f w)) → Meets ρ Q (gets f)
    unfolding gets
    Meets-gets f q = record { at = λ w i. (i, q w i) }

    pub Meets-if :
        (b : Bool) {m n : M A}
        → (b ≡ true → Meets ρ Q m)
        → (b ≡ false → Meets ρ Q n)
        → Meets ρ Q (if b then m else n)
    Meets-if true km kn = km refl
    Meets-if false km kn = kn refl

  module _ {A B : Type 0} {P : A → Type 0} {Q : B → Type 0} where
    Meets-continue :
        (r : Outcome A) (f : A → M B) (w : World)
        → ρ.invariant w
        → Yields ρ P r
        → ((a : A) → P a → Meets ρ Q (f a))
        → ρ.invariant (continue r f w).1 × Yields ρ Q (continue r f w).0
    Meets-continue (Outcome.stop r) f w i h k = (i, h)
    Meets-continue Outcome.hang f w i h k = (i, h)
    Meets-continue (Outcome.go a) f w i h k = (k a h).at w i

    pub Meets-bind :
        (m : M A) (f : A → M B)
        → Meets ρ P m
        → ((a : A) → P a → Meets ρ Q (f a))
        → Meets ρ Q (m >>= f)
    unfolding ◌>>=◌
    Meets-bind m f km kf = record {
      at = λ w i. let (i', h) = km.at w i in Meets-continue (m w).0 f (m w).1 i' h kf;
    }

  module _ {A : Type 0} {P Q : A → Type 0} (weaker : (a : A) → P a → Q a) where
    pub Meets-weaken : (m : M A) → Meets ρ P m → Meets ρ Q m
    Meets-weaken m k = record {
      at = λ w i. let (i', h) = k.at w i in (i', Yields-weaken ρ weaker (m w).0 h);
    }

  -- The cases of an answer, with the equation of the case.
  module _ {A B : Type 0} {Q : B → Type 0} where
    pub Meets-result :
        {h : Error → M B} {g : A → M B} (r : Result A)
        → ((e : Error) → r ≡ err e → Meets ρ Q (h e))
        → ((a : A) → r ≡ ok a → Meets ρ Q (g a))
        → Meets ρ Q (elim r [ err e ↦ h e | ok a ↦ g a ])
    Meets-result (err e) kh kg = kh e refl
    Meets-result (ok a) kh kg = kg a refl

    pub Meets-option :
        {m : M B} {g : A → M B} (o : Option A)
        → (o ≡ none → Meets ρ Q m)
        → ((a : A) → o ≡ some a → Meets ρ Q (g a))
        → Meets ρ Q (elim o [ none ↦ m | some a ↦ g a ])
    Meets-option none km kg = km refl
    Meets-option (some a) km kg = kg a refl
