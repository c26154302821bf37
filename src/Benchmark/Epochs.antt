-- ===== src/Benchmark/Epochs.antt =====
-- pkg/benchmark/driver.go: `runClient` under epoch certification, beside the goroutine of the
-- certifier. A round that has called `engine.Commit` waits there until an epoch answers it.
pub mod Rounds
pub mod Steps
pub mod Moving
pub mod Counted
use ccas.Common.{
  ℕ, ◌+◌, String, Bool, true, false, none, some, List, [], ◌∷◌, ◌++◌, ◌||◌, not, ltb, map,
  if◌then◌else◌, get_elem?, set_elem,
}
use ccas.Common.Text.{decimal}
use ccas.Common.Decimal.{atoi}
use ccas.Dict
use ccas.Storage.{Store}
use ccas.Ccaas.Epoch.{PendingTxn}
use ccas.Execution
use ccas.World.{Client, Event, begins, reads, writes, commits}
use ccas.Service.{Service, call, ticks, stops, drains, works, waits_in, pending, move}
use ccas.Metrics.{Collector, new_collector, record_commit, record_abort, record_conflict}
use ccas.Benchmark.{WorkloadConfig, Draw, pick_keys, pick_from_slice}
use ccas.Benchmark.Clients.{Job, is_running, value_read, complete}

-- One round of the loop of `runClient`, and whether it has called `engine.Commit`.
pub record Round : Type 0 where
  pub job : Job
  pub waits : Bool

-- Round `i` runs the transaction of client `i` of the service.
pub record EpochBench (S : Type 0) : Type 0 where
  pub service : Service S
  pub rounds : List Round
  pub completed : List ℕ
  pub collector : Collector

-- A client begins a round or makes the next call of one; or the goroutine, its ticker or `Stop`
-- goes on.
pub data EpochTurn : Type 0 where
  starts : ℕ → List Draw → ℕ → EpochTurn
  goes : ℕ → ℕ → EpochTurn
  epoch_ticks : EpochTurn
  epoch_works : EpochTurn
  epoch_stops : EpochTurn
  epoch_drains : EpochTurn

abbrev pub open_epoch_bench : {S : Type 0} → Service S → List ℕ → EpochBench S
open_epoch_bench w completed = record {
  service = w;
  rounds = [];
  completed = completed;
  collector = new_collector;
}

module _ {S : Type 0} (st : Store S) (sort : List PendingTxn → List PendingTxn)
    (config : WorkloadConfig) (shuffle : ℕ → List String → List String) where
  -- `engine.Begin`, and the choice of the keys. If the draws do not suffice, the choice has not
  -- ended.
  unfoldable pub start_waiting_round : EpochBench S → ℕ → List Draw → ℕ → EpochBench S
  start_waiting_round b c draws seed = elim (get_elem? b.completed c) [
    | none ↦ b
    | some completed ↦
        if is_running (map (λ r. r.job) b.rounds) c
          || not (ltb completed config.total_txns_per_client)
        then b
        else elim (pick_keys config config.reads_per_txn draws) [
          | none ↦ b
          | some keys ↦ record b {
            service = move st sort b.service (call begins);
            rounds =
                b.rounds
                ++ record {
                  job = record {
                    owner = c;
                    read_todo = keys;
                    values = [];
                    write_todo = pick_from_slice (shuffle seed) keys config.writes_per_txn;
                    over = false;
                  };
                  waits = false;
                }
                  ∷ [];
          }
        ]
  ]

  -- The service after a call, and the new state of the round.
  abbrev pub round_on : EpochBench S → ℕ → Event → Round → EpochBench S
  round_on b i e r = record b {
    service = move st sort b.service (call e);
    rounds = set_elem b.rounds i r;
  }

  -- `engine.Commit` has returned: what is recorded of it.
  unfoldable pub collect : EpochBench S → ℕ → Job → Client → ℕ → EpochBench S
  collect b i job cl latency =
      let b' = record b {
        rounds = set_elem b.rounds i (record { job = record job { over = true }; waits = false });
      } in
      if cl.txn.committed
      then record b' {
        collector = record_commit b.collector latency;
        completed = complete b.completed job.owner;
      }
      else record b' {
        collector = record_conflict (record_abort b.collector latency);
        completed = if config.retry_on_abort then b.completed else complete b.completed job.owner;
      }

  -- The next call of a round: the reads, then the writes, then the commit.
  unfoldable pub advance_round :
      EpochBench S → ℕ → Job → Client → List String → List String → EpochBench S
  advance_round b i job cl (key ∷ keys) ws =
      let val = (Execution.read st b.service.store cl.txn key).1.0 in
      round_on b i (reads i key) (record {
        job = record job { read_todo = keys; values = Dict.set job.values key val };
        waits = false;
      })
  advance_round b i job cl [] (key ∷ keys) =
      let n = atoi (value_read job.values key) in
      round_on b i (writes i key (decimal (n + 1)))
        (record { job = record job { write_todo = keys }; waits = false })
  advance_round b i job cl [] [] = round_on b i (commits i) (record { job = job; waits = true })

  -- A round whose commit has no answer yet stays where it is.
  unfoldable pub resume_round : EpochBench S → ℕ → ℕ → Bool → EpochBench S
  unfolding collect advance_round
  resume_round b i latency true = b
  resume_round b i latency false = elim (get_elem? b.rounds i) [
    | none ↦ b
    | some r ↦ elim (get_elem? b.service.clients i) [
      | none ↦ b
      | some cl ↦
          if r.waits
          then collect b i r.job cl latency
          else (if r.job.over
              then b
              else advance_round b i r.job cl r.job.read_todo r.job.write_todo)
    ]
  ]

  unfoldable pub bench_turn : EpochBench S → EpochTurn → EpochBench S
  unfolding start_waiting_round resume_round waits_in
  bench_turn b (starts c draws seed) = start_waiting_round b c draws seed
  bench_turn b (goes i latency) = resume_round b i latency (waits_in (pending b.service) i)
  bench_turn b epoch_ticks = record b { service = move st sort b.service ticks }
  bench_turn b epoch_works = record b { service = move st sort b.service works }
  bench_turn b epoch_stops = record b { service = move st sort b.service stops }
  bench_turn b epoch_drains = record b { service = move st sort b.service drains }

  unfoldable pub run_epoch_rounds : EpochBench S → List EpochTurn → EpochBench S
  run_epoch_rounds b [] = b
  run_epoch_rounds b (t ∷ ts) = run_epoch_rounds (bench_turn b t) ts
