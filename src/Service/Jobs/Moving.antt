-- ===== src/Service/Jobs/Moving.antt =====
-- Turns that are at most one move of the service each.
use ccas.Common.{ℕ, suc, ◌≤◌, ◌≡◌, ◌⊎◌, ap, ◌∙◌, inl, inr, List, ◌∷◌, arith, length}
use ccas.Storage.{Store}
use ccas.Ccaas.Epoch.{PendingTxn}
use ccas.Service.{Service, Move, move, run_moves}

module _ {S : Type 0} (st : Store S) (sort : List PendingTxn → List PendingTxn) where
  -- At most one move.
  abbrev pub Moves : Service S → Service S → Type 0
  Moves w w' = (w' ≡ w) ⊎ ((m : Move) × (w' ≡ move st sort w m))

  -- At most `n` moves.
  abbrev pub Runs : ℕ → Service S → Service S → Type 0
  Runs n w w' = (ms : List Move) × (length ms ≤ n) × (w' ≡ run_moves st sort w ms)

  pub Moves-Runs : (n : ℕ) (w w' w'' : Service S) → Moves w w' → Runs n w' w'' → Runs (suc n) w w''
  unfolding run_moves
  Moves-Runs n w w' w'' (inl e) (ms, few, same) =
      (ms, omega (arith, few), same ∙ ap (λ u. run_moves st sort u ms) e)
  Moves-Runs n w w' w'' (inr (m, moved)) (ms, few, same) =
      (m ∷ ms, omega (arith, few), same ∙ ap (λ u. run_moves st sort u ms) moved)
