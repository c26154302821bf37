-- ===== src/Benchmark/Clients/Calls.antt =====
-- Each turn of the benchmark is at most one call of the engine.
use ccas.Common.{
  ℕ, String, refl, inl, inr, List, [], ◌∷◌, arith, length, if_both, get_elem?, Option-cases,
  Bool-cases, ◌||◌, not, ltb,
}
use ccas.Storage.{Store}
use ccas.Ccaas.{Certifier}
use ccas.Execution
use ccas.World.{Client, run}
use ccas.World.Stepping.{Moves, Runs, Moves-Runs}
use ccas.Benchmark.{WorkloadConfig, pick_keys}
use ccas.Benchmark.Clients.{
  is_running, Job, Bench, Turn, starts, goes, start_round, finish_round, advance, turn, run_rounds,
}

module _ {C S : Type 0} (st : Store S) (cert : Certifier C S) (config : WorkloadConfig)
    (shuffle : ℕ → List String → List String) where
  advance-Moves :
      (b : Bench C S) (i : ℕ) (job : Job) (cl : Client) (latency : ℕ) (ks ws : List String)
      → Moves st cert b.world (advance st cert config shuffle b i job cl latency ks ws).world
  unfolding advance finish_round
  advance-Moves b i job cl latency (key ∷ ks) ws = inr (_, refl)
  advance-Moves b i job cl latency [] (key ∷ ks) = inr (_, refl)
  advance-Moves b i job cl latency [] [] =
      if_both (λ (b' : Bench C S). Moves st cert b.world b'.world)
        ((Execution.commit cert b.world.cert b.world.store cl.txn).1.0.committed) (inr (_, refl))
        (inr (_, refl))

  turn-Moves :
      (b : Bench C S) (t : Turn) → Moves st cert b.world (turn st cert config shuffle b t).world
  unfolding turn start_round
  turn-Moves b (starts c draws seed) = elim (Option-cases (get_elem? b.completed c)) [
    | inl e ↦ rw (e, turn, start_round) (inl refl)
    | inr (completed, e) ↦
        rw (e, turn, start_round)
          (elim (Bool-cases
            (is_running b.jobs c || not (ltb completed config.total_txns_per_client))) [
              | inl busy ↦ rw busy (inl refl)
              | inr free ↦
                  rw free (elim (Option-cases (pick_keys config config.reads_per_txn draws)) [
                    | inl f ↦ rw f (inl refl)
                    | inr (keys, f) ↦ rw f (inr (_, refl))
                  ])
            ])
  ]
  turn-Moves b (goes i latency) = elim (Option-cases (get_elem? b.jobs i)) [
    | inl e ↦ rw (e, turn) (inl refl)
    | inr (job, e) ↦ elim (Option-cases (get_elem? b.world.clients i)) [
      | inl f ↦ rw (e, turn) (rw (f, turn) (inl refl))
      | inr (cl, f) ↦
          rw (e, turn)
            (rw (f, turn)
              (if_both (λ (b' : Bench C S). Moves st cert b.world b'.world) job.over (inl refl)
                (advance-Moves b i job cl latency job.read_todo job.write_todo)))
    ]
  ]

  -- The turns are a run of calls.
  pub run_rounds-Runs :
      (b : Bench C S) (ts : List Turn)
      → Runs st cert (length ts) b.world (run_rounds st cert config shuffle b ts).world
  unfolding run_rounds run
  run_rounds-Runs b [] = ([], omega arith, refl)
  run_rounds-Runs b (t ∷ ts) =
      Moves-Runs st cert (length ts) b.world (turn st cert config shuffle b t).world _
        (turn-Moves b t) (run_rounds-Runs (turn st cert config shuffle b t) ts)
