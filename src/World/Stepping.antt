-- ===== src/World/Stepping.antt =====
-- What a call does to the client that makes it.
use ccas.Common.{
  ℕ, suc, ◌≤◌, String, ◌≡◌, ◌⊎◌, refl, ap, ◌∙◌, inl, inr, some, List, ◌∷◌, arith, length, get_elem?,
}
use ccas.Storage.{Store}
use ccas.Ccaas.{Certifier}
use ccas.World.{
  Client, World, Event, run, reads, writes, commits, aborts, step, read_step, commit_step,
  write_client, abort_client, put_client, at_client,
}

module _ {C S : Type 0} (st : Store S) (cert : Certifier C S) (w : World C S) (i : ℕ) (cl : Client)
    (here : get_elem? w.clients i ≡ some cl) where
  pub step-reads : (key : String) → step st cert w (reads i key) ≡ read_step st cert w i key cl
  unfolding step
  step-reads key = rw (here, at_client) refl

  pub step-writes :
      (key value : String)
      → step st cert w (writes i key value) ≡ put_client w i (write_client key value cl)
  unfolding step
  step-writes key value = rw (here, at_client) refl

  pub step-aborts : step st cert w (aborts i) ≡ put_client w i (abort_client cl)
  unfolding step
  step-aborts = rw (here, at_client) refl

  pub step-commits : step st cert w (commits i) ≡ commit_step st cert w i cl
  unfolding step
  step-commits = rw (here, at_client) refl

module _ {C S : Type 0} (st : Store S) (cert : Certifier C S) where
  -- At most one call.
  abbrev pub Moves : World C S → World C S → Type 0
  Moves w w' = (w' ≡ w) ⊎ ((e : Event) × (w' ≡ step st cert w e))

  -- At most `n` calls.
  abbrev pub Runs : ℕ → World C S → World C S → Type 0
  Runs n w w' = (es : List Event) × (length es ≤ n) × (w' ≡ run st cert w es)

  pub Moves-Runs : (n : ℕ) (w w' w'' : World C S) → Moves w w' → Runs n w' w'' → Runs (suc n) w w''
  unfolding run
  Moves-Runs n w w' w'' (inl e) (es, few, same) =
      (es, omega (arith, few), same ∙ ap (λ u. run st cert u es) e)
  Moves-Runs n w w' w'' (inr (e, moved)) (es, few, same) =
      (e ∷ es, omega (arith, few), same ∙ ap (λ u. run st cert u es) moved)
