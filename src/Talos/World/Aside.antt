-- ===== src/Talos/World/Aside.antt =====
-- Actions that change neither the object in memory nor the stored status: reads, and the writes to
-- other objects.
use tuppr.Prelude.{
  ℕ, Bool, Option, none, some, inl, inr, ◌≡◌, refl, ◌∙◌, Option-cases, if◌then◌else◌,
}
use tuppr.Talos.World.{
  Env, World, M, Effect, Error, Reply, Result, ok, err, pure, stop_with, ask, gets, write,
  record_write, attempt, ◌>>=◌,
}
use tuppr.Talos.World.Keeps.{
  Keeps, IsFrame, Keeps-pure, Keeps-stop_with, Keeps-ask, Keeps-gets, Keeps-bind, Keeps-if,
}

pub IsAside : World → World → Type 0
IsAside v w = (w.upgrade ≡ v.upgrade) × (w.stored ≡ v.stored)

IsAside-IsFrame : IsFrame IsAside
unfolding IsAside
IsAside-IsFrame = record {
  same = λ w. (refl, refl);
  call = λ w n. (refl, refl);
  chain = λ (a, b) (c, d). (c ∙ a, d ∙ b);
}

-- What an action that stands aside leaves.
pub Keeps-upgrade :
    {A : Type 0} {m : M A} → Keeps IsAside m → (w : World) → (m w).1.upgrade ≡ w.upgrade
unfolding IsAside
Keeps-upgrade k w = (k.at w).0

pub Keeps-stored :
    {A : Type 0} {m : M A} → Keeps IsAside m → (w : World) → (m w).1.stored ≡ w.stored
unfolding IsAside
Keeps-stored k w = (k.at w).1

module _ {A : Type 0} where
  pub IsAside-pure : (a : A) → Keeps IsAside (pure a)
  IsAside-pure a = Keeps-pure IsAside-IsFrame a

  pub IsAside-stop : (r : Reply) → Keeps IsAside (stop_with {A = A} r)
  IsAside-stop r = Keeps-stop_with IsAside-IsFrame r

  pub IsAside-ask : (f : ℕ → A) → Keeps IsAside (ask f)
  IsAside-ask f = Keeps-ask IsAside-IsFrame f

  pub IsAside-gets : (f : World → A) → Keeps IsAside (gets f)
  IsAside-gets f = Keeps-gets IsAside-IsFrame f

  pub IsAside-if :
      (b : Bool) {m n : M A}
      → Keeps IsAside m
      → Keeps IsAside n
      → Keeps IsAside (if b then m else n)
  IsAside-if b {m} {n} km kn = Keeps-if IsAside-IsFrame b m n km kn

  pub IsAside-bind :
      {B : Type 0} {m : M A} {f : A → M B}
      → Keeps IsAside m
      → ((a : A) → Keeps IsAside (f a))
      → Keeps IsAside (m >>= f)
  IsAside-bind {m = m} {f = f} km kf = Keeps-bind IsAside-IsFrame m f km kf

-- The cases of an answer.
module _ {A B : Type 0} where
  pub IsAside-result :
      {h : Error → M B} {g : A → M B}
      → ((e : Error) → Keeps IsAside (h e))
      → ((a : A) → Keeps IsAside (g a))
      → (r : Result A) → Keeps IsAside (elim r [ err e ↦ h e | ok a ↦ g a ])
  IsAside-result kh kg (err e) = kh e
  IsAside-result kh kg (ok a) = kg a

  pub IsAside-option :
      {m : M B} {g : A → M B}
      → Keeps IsAside m
      → ((a : A) → Keeps IsAside (g a))
      → (o : Option A) → Keeps IsAside (elim o [ none ↦ m | some a ↦ g a ])
  IsAside-option km kg none = km
  IsAside-option km kg (some a) = kg a

module _ (env : Env) where
  pub IsAside-write : (e : Effect) → Keeps IsAside (write env e)
  unfolding write record_write IsAside
  IsAside-write e = record {
    at = λ w. elim (Option-cases (env.write_fails w.calls)) [
      | inl h ↦ rw h (refl, refl)
      | inr (x, h) ↦ rw h (refl, refl)
    ];
  }

  pub IsAside-attempt :
      (e : Effect) (answer : ℕ → Option Error) → Keeps IsAside (attempt env e answer)
  unfolding attempt IsAside
  IsAside-attempt e answer = record { at = λ w. (refl, refl) }
