-- ===== src/Benchmark/Running.antt =====
-- pkg/benchmark/driver.go: `RunWith`, and what cmd/benchmark/main.go runs. Of each run the schedule
-- of its calls is a parameter.
pub mod Complete
use ccas.Common.{ℕ, String, ◌==◌, List, ◌∷◌, ◌++◌, ltb, if◌then◌else◌, replicate}
use ccas.Storage.Mem.{MemStore, mem_store}
use ccas.Storage.Mem.Laws.{table}
use ccas.Ccaas.Immediate.{ImmediateCertifier, immediate_certifier}
use ccas.Ccaas.Epoch.{PendingTxn}
use ccas.World.{World, Done}
use ccas.World.Serial.{Values, value_at}
use ccas.Service.{Service}
use ccas.Grpc.{Transport}
use ccas.Deployment.{
  CertifierServer, immediate, with_epochs, start_local, start_epochs, load_and_sync,
  load_and_sync_epochs, far_store, far_certifier,
}
use ccas.Metrics.{Collector}
use ccas.Benchmark.{WorkloadConfig}
use ccas.Benchmark.Clients.{Turn, Bench, zero_data, open_bench, run_rounds}
use ccas.Benchmark.Epochs.{EpochTurn, EpochBench, epoch_stops, open_epoch_bench, run_epoch_rounds}

-- `Store` and `Certifier` of `type RunConfig struct`: both nil, or the clients of two servers, here
-- with the new engine over them; the certifier server has either kind of certifier.
pub data RunConfig (N M : Type 0) : Type 0 where
  nothing_given : RunConfig N M
  servers_given : World (M × ImmediateCertifier) (N × MemStore) → RunConfig N M
  epoch_servers_given : Service (N × MemStore) → RunConfig N M

-- How the calls interleave, in each way of running; `stop_turns` is what the certifier's goroutine
-- does between the closing of `stopCh` and the end of `Stop`.
pub record RunSchedules : Type 0 where
  pub far_turns : List Turn
  pub far_epoch_turns : List EpochTurn
  pub near_turns : List Turn
  pub epoch_turns : List EpochTurn
  pub stop_turns : List EpochTurn

-- The rounds and the epochs, then `Stop`.
abbrev pub rounds_then_stop : RunSchedules → List EpochTurn
rounds_then_stop sched = sched.epoch_turns ++ epoch_stops ∷ sched.stop_turns

-- The benchmark when its clients have ended, in each way of running.
pub data Ended (N M : Type 0) : Type 0 where
  near_ended : Bench ImmediateCertifier MemStore → Ended N M
  near_epochs_ended : EpochBench MemStore → Ended N M
  far_ended : Bench (M × ImmediateCertifier) (N × MemStore) → Ended N M
  far_epochs_ended : EpochBench (N × MemStore) → Ended N M

module _ {N M : Type 0} where
  abbrev pub collector_of : Ended N M → Collector
  collector_of (near_ended b) = b.collector
  collector_of (near_epochs_ended b) = b.collector
  collector_of (far_ended b) = b.collector
  collector_of (far_epochs_ended b) = b.collector

  -- The committed transactions.
  abbrev pub history_of : Ended N M → List Done
  history_of (near_ended b) = b.world.history
  history_of (near_epochs_ended b) = b.service.history
  history_of (far_ended b) = b.world.history
  history_of (far_epochs_ended b) = b.service.history

  -- What the store holds.
  abbrev pub values_left : Ended N M → Values
  values_left (near_ended b) = value_at (table b.world.store)
  values_left (near_epochs_ended b) = value_at (table b.service.store)
  values_left (far_ended b) = value_at (table b.world.store.1)
  values_left (far_epochs_ended b) = value_at (table b.service.store.1)

module _ {N M : Type 0} (t : Transport N) (u : Transport M) (config : WorkloadConfig) where
  -- `main` in the mode "remote": the data is loaded and the certifier synced, over the connections.
  unfoldable pub give_servers : CertifierServer M → N × MemStore → RunConfig N M
  give_servers (immediate c) s = servers_given (load_and_sync t u c s (zero_data config.num_keys))
  give_servers (with_epochs c) s =
      epoch_servers_given (load_and_sync_epochs t c s (zero_data config.num_keys))

module _ {N M : Type 0} (t : Transport N) (u : Transport M)
    (sort : List PendingTxn → List PendingTxn) (shuffle : ℕ → List String → List String)
    (sched : RunSchedules) (config : WorkloadConfig) where
  -- `RunWith`, up to the report.
  unfoldable pub run_with : RunConfig N M → Ended N M
  run_with nothing_given =
      if ltb 0 config.epoch_duration_ms
      then near_epochs_ended (
          run_epoch_rounds mem_store sort config shuffle
            (open_epoch_bench (start_epochs (zero_data config.num_keys))
              (replicate config.num_clients 0))
            (rounds_then_stop sched))
      else near_ended (
          run_rounds mem_store (immediate_certifier mem_store) config shuffle
            (open_bench (start_local (zero_data config.num_keys)) (replicate config.num_clients 0))
            sched.near_turns)
  run_with (servers_given w) = far_ended (
      run_rounds (far_store t) (far_certifier t u) config shuffle
        (open_bench w (replicate config.num_clients 0)) sched.far_turns)
  run_with (epoch_servers_given w) = far_epochs_ended (
      run_epoch_rounds (far_store t) sort config shuffle
        (open_epoch_bench w (replicate config.num_clients 0)) sched.far_epoch_turns)

  -- `main`, with the flag `mode`, over connections that stand.
  unfoldable pub benchmark_main : CertifierServer M → N × MemStore → String → Ended N M
  unfolding run_with give_servers
  benchmark_main c s mode =
      if mode == "remote" then run_with (give_servers t u config c s) else run_with nothing_given
