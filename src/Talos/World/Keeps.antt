-- ===== src/Talos/World/Keeps.antt =====
-- Relations between the world before and after an action, one rule for each way to build an action.
use tuppr.Prelude.{ℕ, Bool, true, false, if◌then◌else◌}
use tuppr.Talos.World.{World, M, Outcome, Reply, continue, pure, stop_with, ask, gets, ◌>>=◌}

-- Whatever `m` returns, the world that it leaves stands in `R` to the one it found.
pub record Keeps {A : Type 0} (R : World → World → Type 0) (m : M A) : Type 0 where
  pub at : (w : World) → R w (m w).1

-- A relation that one outside call is in, and that chains.
pub record IsFrame (R : World → World → Type 0) : Type 0 where
  pub same : (w : World) → R w w
  pub call : (w : World) (n : ℕ) → R w (record w { calls = n })
  pub chain : {u v w : World} → R u v → R v w → R u w

module _ {R : World → World → Type 0} (frame : IsFrame R) where
  pub Keeps-pure : {A : Type 0} (a : A) → Keeps R (pure a)
  unfolding pure
  Keeps-pure a = record { at = λ w. frame.same w }

  pub Keeps-stop_with : {A : Type 0} (r : Reply) → Keeps R (stop_with {A = A} r)
  unfolding stop_with
  Keeps-stop_with r = record { at = λ w. frame.same w }

  pub Keeps-ask : {A : Type 0} (f : ℕ → A) → Keeps R (ask f)
  unfolding ask
  Keeps-ask f = record { at = λ w. frame.call w _ }

  pub Keeps-gets : {A : Type 0} (f : World → A) → Keeps R (gets f)
  unfolding gets
  Keeps-gets f = record { at = λ w. frame.same w }

  keeps_continue :
      {A B : Type 0} (r : Outcome A) (f : A → M B) (v w : World)
      → R v w
      → ((a : A) → Keeps R (f a))
      → R v (continue r f w).1
  keeps_continue (Outcome.stop r) f v w h k = h
  keeps_continue Outcome.hang f v w h k = h
  keeps_continue (Outcome.go a) f v w h k = frame.chain h ((k a).at w)

  pub Keeps-bind :
      {A B : Type 0} (m : M A) (f : A → M B)
      → Keeps R m
      → ((a : A) → Keeps R (f a))
      → Keeps R (m >>= f)
  unfolding ◌>>=◌
  Keeps-bind m f km kf = record { at = λ w. keeps_continue (m w).0 f w (m w).1 (km.at w) kf }

  pub Keeps-if :
      {A : Type 0} (b : Bool) (m n : M A) → Keeps R m → Keeps R n → Keeps R (if b then m else n)
  Keeps-if true m n km kn = km
  Keeps-if false m n km kn = kn
