-- ===== src/Benchmark/Clients.antt =====
-- pkg/benchmark/driver.go: `runClient` for any number of clients beside each other. One turn is one
-- call of the engine, so a list of turns is an interleaving. The latencies are numbers that the
-- clock gives, and `shuffle` is what `rng.Shuffle` makes of a slice, for each state of the
-- generator.
pub mod Jobs
pub mod Starting
pub mod Steps
pub mod Calls
pub mod Counted
use ccas.Common.{
  ℕ, zero, suc, ◌+◌, String, Bool, true, false, none, some, List, [], ◌∷◌, ◌++◌, ◌||◌, ◌&&◌, eqb,
  ltb, not, if◌then◌else◌, get_elem?, set_elem,
}
use ccas.Common.Text.{decimal}
use ccas.Common.Decimal.{atoi}
use ccas.Dict
use ccas.Dict.{Dict}
use ccas.Storage.{Store}
use ccas.Ccaas.{Certifier}
use ccas.Execution
use ccas.World.{Client, World, Event, begins, reads, writes, commits, step}
use ccas.Metrics.{Collector, new_collector, record_commit, record_abort, record_conflict}
use ccas.Benchmark.{WorkloadConfig, Draw, key_name, pick_keys, pick_from_slice}

-- The `data` of `RunWith`, for the first `n` keys.
unfoldable pub zero_data : ℕ → Dict String
zero_data zero = []
zero_data (suc n) = Dict.set (zero_data n) (key_name n) "0"

-- One round of the loop of `runClient`: the keys still to be read, the map `values`, the keys still
-- to be written. Job `i` runs the transaction of client `i` of the world.
pub record Job : Type 0 where
  pub owner : ℕ
  pub read_todo : List String
  pub values : Dict String
  pub write_todo : List String
  pub over : Bool

-- `completed` has a number for each client of the benchmark.
pub record Bench (C S : Type 0) : Type 0 where
  pub world : World C S
  pub jobs : List Job
  pub completed : List ℕ
  pub collector : Collector

-- A client begins a round, with what its generator gives, or makes the next call of a round.
pub data Turn : Type 0 where
  starts : ℕ → List Draw → ℕ → Turn
  goes : ℕ → ℕ → Turn

abbrev pub open_bench : {C S : Type 0} → World C S → List ℕ → Bench C S
open_bench w completed = record {
  world = w;
  jobs = [];
  completed = completed;
  collector = new_collector;
}

-- The client is in the middle of a round.
abbrev pub is_running : List Job → ℕ → Bool
is_running [] c = false
is_running (j ∷ js) c = (eqb j.owner c && not j.over) || is_running js c

-- `values[key]`
abbrev pub value_read : Dict String → String → String
value_read values key = elim (Dict.get values key) [ some v ↦ v | none ↦ "" ]

-- `completed++` of a client.
abbrev pub complete : List ℕ → ℕ → List ℕ
complete ns c = elim (get_elem? ns c) [ some n ↦ set_elem ns c (n + 1) | none ↦ ns ]

module _ {C S : Type 0} (st : Store S) (cert : Certifier C S) (config : WorkloadConfig)
    (shuffle : ℕ → List String → List String) where
  -- `engine.Begin`, and the choice of the keys. If the draws do not suffice, the choice has not
  -- ended.
  unfoldable pub start_round : Bench C S → ℕ → List Draw → ℕ → Bench C S
  start_round b c draws seed = elim (get_elem? b.completed c) [
    | none ↦ b
    | some completed ↦
        if is_running b.jobs c || not (ltb completed config.total_txns_per_client)
        then b
        else elim (pick_keys config config.reads_per_txn draws) [
          | none ↦ b
          | some keys ↦ record b {
            world = step st cert b.world begins;
            jobs =
                b.jobs
                ++ record {
                  owner = c;
                  read_todo = keys;
                  values = [];
                  write_todo = pick_from_slice (shuffle seed) keys config.writes_per_txn;
                  over = false;
                }
                  ∷ [];
          }
        ]
  ]

  -- The world after a call, and the new state of the round.
  abbrev pub go_on : Bench C S → ℕ → Event → Job → Bench C S
  go_on b i e job = record b { world = step st cert b.world e; jobs = set_elem b.jobs i job }

  -- `engine.Commit`, and what is recorded of it.
  unfoldable pub finish_round : Bench C S → ℕ → Job → Client → ℕ → Bench C S
  finish_round b i job cl latency =
      let (result, _) = (Execution.commit cert b.world.cert b.world.store cl.txn).1 in
      let b' = go_on b i (commits i) (record job { over = true }) in
      if result.committed
      then record b' {
        collector = record_commit b.collector latency;
        completed = complete b.completed job.owner;
      }
      else record b' {
        collector = record_conflict (record_abort b.collector latency);
        completed = if config.retry_on_abort then b.completed else complete b.completed job.owner;
      }

  -- The next call of a round: the reads, then the writes, then the commit.
  unfoldable pub advance : Bench C S → ℕ → Job → Client → ℕ → List String → List String → Bench C S
  unfolding finish_round
  advance b i job cl latency (key ∷ keys) ws =
      let val = (Execution.read st b.world.store cl.txn key).1.0 in
      go_on b i (reads i key)
        (record job { read_todo = keys; values = Dict.set job.values key val })
  advance b i job cl latency [] (key ∷ keys) =
      let n = atoi (value_read job.values key) in
      go_on b i (writes i key (decimal (n + 1))) (record job { write_todo = keys })
  advance b i job cl latency [] [] = finish_round b i job cl latency

  unfoldable pub turn : Bench C S → Turn → Bench C S
  unfolding start_round advance
  turn b (starts c draws seed) = start_round b c draws seed
  turn b (goes i latency) = elim (get_elem? b.jobs i) [
    | none ↦ b
    | some job ↦ elim (get_elem? b.world.clients i) [
      | none ↦ b
      | some cl ↦ if job.over then b else advance b i job cl latency job.read_todo job.write_todo
    ]
  ]

  unfoldable pub run_rounds : Bench C S → List Turn → Bench C S
  run_rounds b [] = b
  run_rounds b (t ∷ ts) = run_rounds (turn b t) ts
