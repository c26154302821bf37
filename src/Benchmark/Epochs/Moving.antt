-- ===== src/Benchmark/Epochs/Moving.antt =====
-- Each turn of the benchmark under epoch certification is at most one move of the service.
use ccas.Common.{
  ℕ, String, refl, inl, inr, Bool, true, false, List, [], ◌∷◌, ◌||◌, not, ltb, map, arith, length,
  get_elem?, Option-cases, Bool-cases, if_both,
}
use ccas.Storage.{Store}
use ccas.Ccaas.Epoch.{PendingTxn}
use ccas.World.{Client}
use ccas.Service.{ticks, works, stops, drains, run_moves}
use ccas.Service.Jobs.Moving.{Moves, Runs, Moves-Runs}
use ccas.Benchmark.{WorkloadConfig, Draw, pick_keys}
use ccas.Benchmark.Clients.{Job, is_running}
use ccas.Benchmark.Epochs.{
  EpochBench, EpochTurn, starts, goes, epoch_ticks, epoch_works, epoch_stops, epoch_drains,
  start_waiting_round, collect, advance_round, resume_round, bench_turn, run_epoch_rounds,
}

module _ {S : Type 0} (st : Store S) (sort : List PendingTxn → List PendingTxn)
    (config : WorkloadConfig) (shuffle : ℕ → List String → List String) where
  -- The turn from `b` to `b'`.
  abbrev Turns : EpochBench S → EpochBench S → Type 0
  Turns b b' = Moves st sort b.service b'.service

  advance_round-Moves :
      (b : EpochBench S) (i : ℕ) (job : Job) (cl : Client) (ks ws : List String)
      → Turns b (advance_round st sort config shuffle b i job cl ks ws)
  unfolding advance_round
  advance_round-Moves b i job cl (key ∷ ks) ws = inr (_, refl)
  advance_round-Moves b i job cl [] (key ∷ ks) = inr (_, refl)
  advance_round-Moves b i job cl [] [] = inr (_, refl)

  resume_round-Moves :
      (b : EpochBench S) (i latency : ℕ) (busy : Bool)
      → Turns b (resume_round st sort config shuffle b i latency busy)
  unfolding resume_round collect
  resume_round-Moves b i latency true = inl refl
  resume_round-Moves b i latency false = elim (Option-cases (get_elem? b.rounds i)) [
    | inl e ↦ rw (e, resume_round) (inl refl)
    | inr (r, e) ↦ elim (Option-cases (get_elem? b.service.clients i)) [
      | inl f ↦ rw (e, resume_round) (rw (f, resume_round) (inl refl))
      | inr (cl, f) ↦
          rw (e, resume_round)
            (rw (f, resume_round)
              (if_both (Turns b) r.waits (if_both (Turns b) cl.txn.committed (inl refl) (inl refl))
                (if_both (Turns b) r.job.over (inl refl)
                  (advance_round-Moves b i r.job cl r.job.read_todo r.job.write_todo))))
    ]
  ]

  start_waiting_round-Moves :
      (b : EpochBench S) (c : ℕ) (draws : List Draw) (seed : ℕ)
      → Turns b (start_waiting_round st sort config shuffle b c draws seed)
  unfolding start_waiting_round
  start_waiting_round-Moves b c draws seed = elim (Option-cases (get_elem? b.completed c)) [
    | inl e ↦ rw (e, start_waiting_round) (inl refl)
    | inr (completed, e) ↦
        rw (e, start_waiting_round)
          (elim (Bool-cases (
            is_running (map (λ r. r.job) b.rounds) c
            || not (ltb completed config.total_txns_per_client))) [
              | inl busy ↦ rw busy (inl refl)
              | inr free ↦
                  rw free (elim (Option-cases (pick_keys config config.reads_per_txn draws)) [
                    | inl f ↦ rw f (inl refl)
                    | inr (keys, f) ↦ rw f (inr (_, refl))
                  ])
            ])
  ]

  bench_turn-Moves :
      (b : EpochBench S) (t : EpochTurn) → Turns b (bench_turn st sort config shuffle b t)
  unfolding bench_turn
  bench_turn-Moves b (starts c draws seed) = start_waiting_round-Moves b c draws seed
  bench_turn-Moves b (goes i latency) = resume_round-Moves b i latency _
  bench_turn-Moves b epoch_ticks = inr (ticks, refl)
  bench_turn-Moves b epoch_works = inr (works, refl)
  bench_turn-Moves b epoch_stops = inr (stops, refl)
  bench_turn-Moves b epoch_drains = inr (drains, refl)

  -- The turns are a run of moves.
  pub run_epoch_rounds-Runs :
      (b : EpochBench S) (ts : List EpochTurn)
      → Runs st sort (length ts) b.service (run_epoch_rounds st sort config shuffle b ts).service
  unfolding run_epoch_rounds run_moves
  run_epoch_rounds-Runs b [] = ([], omega arith, refl)
  run_epoch_rounds-Runs b (t ∷ ts) =
      Moves-Runs st sort (length ts) b.service (bench_turn st sort config shuffle b t).service _
        (bench_turn-Moves b t) (run_epoch_rounds-Runs (bench_turn st sort config shuffle b t) ts)
