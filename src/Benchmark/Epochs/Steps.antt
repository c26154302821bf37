-- ===== src/Benchmark/Epochs/Steps.antt =====
-- Each turn of the benchmark under epoch certification keeps the rounds in step with their
-- transactions.
use ccas.Common.Pairs.{Paired-get}
use ccas.Common.{
  ℕ, ◌+◌, ◌%◌, String, ◌≡◌, refl, inl, inr, ap, Bool, true, false, some, List, [], ◌∷◌, ◌||◌, not,
  ltb, map, arith, get_elem?, Option-cases, if_cases, inc64, u64_mod,
}
use ccas.Common.Text.{decimal}
use ccas.Common.Decimal.{atoi}
use ccas.Dict
use ccas.Storage.{Store}
use ccas.Ccaas.Epoch.{PendingTxn}
use ccas.Ccaas.Epoch.Sorting.{Sorts}
use ccas.Execution
use ccas.World.{Client}
use ccas.Service.{Service, waits_in, pending}
use ccas.Service.Jobs.{Joined}
use ccas.Service.Jobs.Working.{ticks-Joined, works-Joined, stops-Joined, drains-Joined}
use ccas.Service.Jobs.Calling.{
  begins-Joined, reads-Joined, writes-Joined, counts-Joined, commits-Joined,
}
use ccas.Metrics.{record_commit, record_abort, record_conflict}
use ccas.Benchmark.{WorkloadConfig, Draw, pick_keys}
use ccas.Benchmark.Clients.{is_running, value_read}
use ccas.Benchmark.Clients.Jobs.{Runs, read_client-Runs, write_client-Runs, Runs-IsIncrement}
use ccas.Benchmark.Clients.Starting.{FitsConfig, first-Runs}
use ccas.Benchmark.Epochs.{
  Round, EpochBench, EpochTurn, starts, goes, epoch_ticks, epoch_works, epoch_stops, epoch_drains,
  start_waiting_round, collect, advance_round, resume_round, bench_turn, run_epoch_rounds,
}
use ccas.Benchmark.Epochs.Rounds.{RoundOk, round_rules, BenchOk}

module _ {S : Type 0} (st : Store S) (sort : List PendingTxn → List PendingTxn)
    (config : WorkloadConfig) (shuffle : ℕ → List String → List String) (count : ℕ) where
  -- A move that counts nothing.
  same-BenchOk :
      (b : EpochBench S) (rounds : List Round) (w : Service S) (ok : BenchOk config count b)
      → Joined (round_rules config.num_keys count) ok.told rounds w
      → BenchOk config count (record b { service = w; rounds = rounds })
  same-BenchOk b rounds w ok joined = record {
    told = ok.told;
    joined = joined;
    committed = ok.committed;
    conflicts = ok.conflicts;
  }

  module _ (b : EpochBench S) (i : ℕ) (r : Round) (cl : Client) (ok : BenchOk config count b)
      (at : get_elem? b.rounds i ≡ some r) (here : get_elem? b.service.clients i ≡ some cl)
      (free : waits_in (pending b.service) i ≡ false) where
    collect-BenchOk :
        (latency : ℕ)
        → r.waits ≡ true
        → BenchOk config count (collect st sort config shuffle b i r.job cl latency)
    unfolding collect record_commit record_abort record_conflict inc64 u64_mod
    collect-BenchOk latency had =
        let counted =
          counts-Joined st sort (round_rules config.num_keys count) ok.told b.rounds b.service
            ok.joined i r cl at here free
            (record { job = record r.job { over = true }; waits = false }) had refl tt in
        let before = ok.committed in
        if_cases (BenchOk config count) cl.txn.committed
          (λ won. record {
            told = ok.told + 1;
            joined = rw won at counted;
            committed = omega arith;
            conflicts = ok.conflicts;
          })
          (λ lost. record {
            told = ok.told + 0;
            joined = rw lost at counted;
            committed = omega arith;
            conflicts = ap (λ n. (n + 1) % u64_mod) ok.conflicts;
          })

    advance_round-BenchOk :
        (ks ws : List String)
        → r.waits ≡ false
        → r.job.over ≡ false
        → r.job.read_todo ≡ ks
        → r.job.write_todo ≡ ws
        → Runs config.num_keys count r.job.values ks ws cl
        → BenchOk config count (advance_round st sort config shuffle b i r.job cl ks ws)
    unfolding advance_round
    advance_round-BenchOk (key ∷ ks) ws idle going read_all todo runs =
        let val = (Execution.read st b.service.store cl.txn key).1.0 in
        same-BenchOk b _ _ ok (
          reads-Joined st sort (round_rules config.num_keys count) ok.told b.rounds b.service
            ok.joined i r cl at here free
            (record {
              job = record r.job { read_todo = ks; values = Dict.set r.job.values key val };
              waits = false;
            })
            key idle refl
            (rw (going, todo)
              (read_client-Runs st config.num_keys count b.service.store cl r.job.values key ks ws
                runs)))
    advance_round-BenchOk [] (key ∷ ks) idle going read_all todo runs = same-BenchOk b _ _ ok (
        writes-Joined st sort (round_rules config.num_keys count) ok.told b.rounds b.service
          ok.joined i r cl at here free
          (record { job = record r.job { write_todo = ks }; waits = false }) key
          (decimal (atoi (value_read r.job.values key) + 1)) idle refl
          (rw (going, read_all)
            (write_client-Runs config.num_keys count cl r.job.values key ks runs)))
    advance_round-BenchOk [] [] idle going read_all todo runs = same-BenchOk b _ _ ok (
        commits-Joined st sort (round_rules config.num_keys count) ok.told b.rounds b.service
          ok.joined i r cl at here free (record { job = r.job; waits = true }) idle refl runs.active
          (Runs-IsIncrement config.num_keys count cl r.job.values runs))

  resume_round-BenchOk :
      (b : EpochBench S) (i latency : ℕ) (busy : Bool)
      → waits_in (pending b.service) i ≡ busy
      → BenchOk config count b
      → BenchOk config count (resume_round st sort config shuffle b i latency busy)
  unfolding resume_round
  resume_round-BenchOk b i latency true free ok = ok
  resume_round-BenchOk b i latency false free ok = elim (Option-cases (get_elem? b.rounds i)) [
    | inl e ↦ rw (e, resume_round) ok
    | inr (r, e) ↦ elim (Option-cases (get_elem? b.service.clients i)) [
      | inl f ↦ rw (e, resume_round) (rw (f, resume_round) ok)
      | inr (cl, f) ↦
          let fits =
            Paired-get (RoundOk config.num_keys count) b.rounds b.service.clients i
              ok.joined.jobs_ok e f in
          rw (e, resume_round)
            (rw (f, resume_round)
              (if_cases (BenchOk config count) r.waits
                (λ had. collect-BenchOk b i r cl ok e f free latency had)
                (λ idle.
                  if_cases (BenchOk config count) r.job.over (λ _. ok)
                    (λ going.
                      advance_round-BenchOk b i r cl ok e f free r.job.read_todo r.job.write_todo
                        idle going refl refl (rw (idle, going) at fits)))))
    ]
  ]

  start_waiting_round-BenchOk :
      (b : EpochBench S) (c : ℕ) (draws : List Draw) (seed : ℕ)
      → FitsConfig config shuffle count
      → BenchOk config count b
      → BenchOk config count (start_waiting_round st sort config shuffle b c draws seed)
  unfolding start_waiting_round Execution.begin Execution.check_active
  start_waiting_round-BenchOk b c draws seed fits ok =
      elim (Option-cases (get_elem? b.completed c)) [
        | inl e ↦ rw (e, start_waiting_round) ok
        | inr (completed, e) ↦
            rw (e, start_waiting_round)
              (if_cases (BenchOk config count)
                (is_running (map (λ r. r.job) b.rounds) c
                  || not (ltb completed config.total_txns_per_client))
                (λ _. ok)
                (λ _. elim (Option-cases (pick_keys config config.reads_per_txn draws)) [
                  | inl f ↦ rw (f, start_waiting_round) ok
                  | inr (keys, f) ↦
                      rw (f, start_waiting_round)
                        (same-BenchOk b _ _ ok (
                          begins-Joined st sort (round_rules config.num_keys count) ok.told b.rounds
                            b.service ok.joined _ refl
                            (first-Runs config shuffle count draws keys seed _ fits f refl refl
                              refl)))
                ]))
      ]

  bench_turn-BenchOk :
      (b : EpochBench S) (t : EpochTurn)
      → FitsConfig config shuffle count
      → Sorts sort
      → BenchOk config count b
      → BenchOk config count (bench_turn st sort config shuffle b t)
  unfolding bench_turn
  bench_turn-BenchOk b (starts c draws seed) fits sorts ok =
      start_waiting_round-BenchOk b c draws seed fits ok
  bench_turn-BenchOk b (goes i latency) fits sorts ok = resume_round-BenchOk b i latency _ refl ok
  bench_turn-BenchOk b epoch_ticks fits sorts ok = same-BenchOk b b.rounds _ ok (
      ticks-Joined (round_rules config.num_keys count) ok.told b.rounds b.service ok.joined st sort
        sorts)
  bench_turn-BenchOk b epoch_works fits sorts ok = same-BenchOk b b.rounds _ ok (
      works-Joined (round_rules config.num_keys count) ok.told b.rounds b.service ok.joined st sort
        sorts)
  bench_turn-BenchOk b epoch_stops fits sorts ok = same-BenchOk b b.rounds _ ok (
      stops-Joined (round_rules config.num_keys count) ok.told b.rounds b.service ok.joined st sort
        sorts)
  bench_turn-BenchOk b epoch_drains fits sorts ok = same-BenchOk b b.rounds _ ok (
      drains-Joined (round_rules config.num_keys count) ok.told b.rounds b.service ok.joined st sort
        sorts)

  pub run_epoch_rounds-BenchOk :
      (b : EpochBench S) (ts : List EpochTurn)
      → FitsConfig config shuffle count
      → Sorts sort
      → BenchOk config count b
      → BenchOk config count (run_epoch_rounds st sort config shuffle b ts)
  unfolding run_epoch_rounds
  run_epoch_rounds-BenchOk b [] fits sorts ok = ok
  run_epoch_rounds-BenchOk b (t ∷ ts) fits sorts ok =
      run_epoch_rounds-BenchOk (bench_turn st sort config shuffle b t) ts fits sorts
        (bench_turn-BenchOk b t fits sorts ok)
