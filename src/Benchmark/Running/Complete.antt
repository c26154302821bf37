-- ===== src/Benchmark/Running/Complete.antt =====
-- The benchmark loses no increment, in whichever way it is run.
use mathlib.Core.List.{Perm}
use ccas.Common.{
  ℕ, ◌+◌, ◌*◌, ◌%◌, ◌≤◌, ◌<◌, String, ◌==◌, ◌≡◌, some, List, arith, length, u64_mod, if_both, ltb,
}
use ccas.Storage.{Entry}
use ccas.Storage.Mem.{MemStore}
use ccas.Storage.Mem.Laws.{table}
use ccas.Ccaas.Epoch.{PendingTxn}
use ccas.Ccaas.Epoch.Sorting.{Sorts}
use ccas.Grpc.{Transport, Delivers}
use ccas.Deployment.{CertifierServer, immediate, with_epochs, Idle}
use ccas.Metrics.{Floats, report}
use ccas.Benchmark.{WorkloadConfig}
use ccas.Benchmark.Increments.{sum_of_keys}
use ccas.Benchmark.Clients.Counted.{written, run_rounds-sum, remote_rounds-sum}
use ccas.Benchmark.Epochs.Counted.{unrecorded, local_epoch_rounds-sum, remote_epoch_rounds-sum}
use ccas.Benchmark.Running.{
  RunSchedules, rounds_then_stop, Ended, near_ended, near_epochs_ended, far_ended, far_epochs_ended,
  nothing_given, collector_of, history_of, values_left, run_with, give_servers, benchmark_main,
}

-- The commits of rounds that have not recorded them: only a round that waits for an epoch has one.
abbrev pub not_recorded : {N M : Type 0} → WorkloadConfig → Ended N M → ℕ
not_recorded config (near_ended b) = 0
not_recorded config (near_epochs_ended b) = unrecorded config b
not_recorded config (far_ended b) = 0
not_recorded config (far_epochs_ended b) = unrecorded config b

-- `elapsed` is the time that the benchmark has taken.
module _ {F : Type 0} (fl : Floats F) (by_length : List ℕ → List ℕ) (elapsed : ℕ) where
  -- The keys hold the increments of the committed rounds, and the report counts them.
  abbrev pub IsComplete : {N M : Type 0} → WorkloadConfig → Ended N M → Type 0
  IsComplete config e =
      let r = report fl by_length (collector_of e) elapsed in
      (sum_of_keys config.num_keys (values_left e) ≡ length (history_of e) * written config)
      × ((r.total_committed + not_recorded config e) % u64_mod ≡ length (history_of e) % u64_mod)
      × (r.conflict_count ≡ r.total_aborted)

  module _ {N M : Type 0} (t : Transport N) (u : Transport M) (t_ok : Delivers t)
      (u_ok : Delivers u) (sort : List PendingTxn → List PendingTxn) (sorts : Sorts sort)
      (shuffle : ℕ → List String → List String)
      (permutes : (seed : ℕ) (ks : List String) → Perm (shuffle seed ks) ks) (sched : RunSchedules)
      (config : WorkloadConfig) (some_keys : 0 < config.num_keys)
      (hot_inside : config.hot_part ≤ config.num_keys) where
    near-IsComplete :
        length sched.near_turns + 1 < u64_mod
        → length (rounds_then_stop sched) + 1 < u64_mod
        → IsComplete config (run_with t u sort shuffle sched config nothing_given)
    unfolding run_with report u64_mod
    near-IsComplete near epoch =
        let (sum, counted, conflicts) =
          run_rounds-sum config shuffle some_keys hot_inside permutes config.num_clients
            sched.near_turns near in
        if_both (IsComplete config) (ltb 0 config.epoch_duration_ms)
          (local_epoch_rounds-sum config shuffle some_keys hot_inside permutes sort sorts
            config.num_clients (rounds_then_stop sched) epoch)
          (sum, omega (arith, counted), conflicts)

    servers-IsComplete :
        (c : CertifierServer M) (s : N × MemStore) (high : ℕ)
        → 1 ≤ high
        → Idle high c
        → ((k : String) (e : Entry) → table s.1 k ≡ some e → (0 < e.version) × (e.version ≤ high))
        → length sched.far_turns + high < u64_mod
        → length sched.far_epoch_turns + high < u64_mod
        → IsComplete config (run_with t u sort shuffle sched config (give_servers t u config c s))
    unfolding run_with give_servers report u64_mod
    servers-IsComplete (immediate (m, c)) s high one low within room epoch_room =
        let (sum, counted, conflicts) =
          remote_rounds-sum config shuffle some_keys hot_inside permutes t u m c s high
            config.num_clients sched.far_turns t_ok u_ok one low within room in
        (sum, omega (arith, counted), conflicts)
    servers-IsComplete (with_epochs c) s high one (idle, low) within room epoch_room =
        remote_epoch_rounds-sum config shuffle some_keys hot_inside permutes sort sorts t c s high
          config.num_clients sched.far_epoch_turns t_ok idle one low within epoch_room

    -- Whatever the flags `mode` and `epoch-ms` say, and however the rounds of the clients, the epochs
    -- and `Stop` interleave, the benchmark loses no increment: at the end the keys hold as many
    -- as the committed rounds have written, `WritesPerTxn` each, or `ReadsPerTxn` if that is less.
    -- The commits of the report, with those that have been answered and not been recorded yet, are
    -- all there are, modulo 2^64, and it shows as many conflicts as aborts. Remotely, over
    -- connections that lose nothing, this holds with either kind of certifier in its server,
    -- whatever the storage server held, with nobody else at work and no transaction pending. There
    -- is a key, there are no more hot keys than keys, `rng.Shuffle` permutes, the order of a batch
    -- is one that `sort.Slice` may give, the versions in the store are positive, and the steps of a
    -- run leave the counter below the last uint64.
    pub benchmark_main-IsComplete :
        (c : CertifierServer M) (s : N × MemStore) (mode : String) (high : ℕ)
        → 1 ≤ high
        → Idle high c
        → ((k : String) (e : Entry) → table s.1 k ≡ some e → (0 < e.version) × (e.version ≤ high))
        → length sched.far_turns + high < u64_mod
        → length sched.far_epoch_turns + high < u64_mod
        → length sched.near_turns + high < u64_mod
        → length (rounds_then_stop sched) + high < u64_mod
        → IsComplete config (benchmark_main t u sort shuffle sched config c s mode)
    unfolding benchmark_main
    benchmark_main-IsComplete c s mode high one low within far far_epoch near epoch =
        if_both (IsComplete config) (mode == "remote")
          (servers-IsComplete c s high one low within far far_epoch)
          (near-IsComplete (omega arith) (omega arith))
