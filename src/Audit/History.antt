-- ===== src/Audit/History.antt =====
-- The history is bounded, and the newest entry stands first.
use tuppr.Prelude.{ℕ, zero, suc, ◌-◌, ◌≡◌, refl, List, [], ◌∷◌, take, arith, ap}
use tuppr.Audit.{fill_history, prepend_history}

module _ {ℓ} {A : Type ℓ} where
  fill_history-take : (room : ℕ) (old : List A) → fill_history room old ≡ take room old
  unfolding fill_history
  fill_history-take zero old = refl
  fill_history-take (suc room) [] = refl
  fill_history-take (suc room) (x ∷ old) = ap (λ (l : List A). x ∷ l) (fill_history-take room old)

  -- For a limit of at least one, PrependHistory keeps the first `limit` entries of the new entry
  -- followed by the old history.
  pub prepend_history-take :
      (history : List A) (entry : A) (room : ℕ)
      → prepend_history history entry (suc room) ≡ take (suc room) (entry ∷ history)
  unfolding prepend_history
  prepend_history-take history entry room =
      let one_less : suc room - 1 ≡ room = omega arith in
      rw one_less (ap (λ (l : List A). entry ∷ l) (fill_history-take room history))
