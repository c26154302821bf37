-- ===== src/Benchmark/Epochs/Counted.antt =====
-- What the benchmark reports under epoch certification agrees with what the store holds.
use mathlib.Core.List.{Perm}
use ccas.Common.{
  ℕ, ◌+◌, ◌*◌, ◌%◌, ◌≤◌, ◌<◌, String, ◌≡◌, refl, sym, subst, some, List, [], arith, length, u64_mod,
  replicate,
}
use ccas.Storage.{Entry, Store}
use ccas.Storage.Mem.{MemStore, mem_store}
use ccas.Storage.Mem.Laws.{mem_laws, table}
use ccas.Storage.Contract.{StoreLaws, loaded}
use ccas.Ccaas.Epoch
use ccas.Ccaas.Epoch.{EpochCertifier, PendingTxn}
use ccas.Ccaas.Epoch.Sorting.{Sorts}
use ccas.World.Serial.{Values, value_at, Serial}
use ccas.Service.{Service, Move, pending, run_moves}
use ccas.Service.Jobs.{owing}
use ccas.Grpc.{Transport, Delivers}
use ccas.Deployment.{values_of, start_epochs, load_and_sync_epochs, far_store}
use ccas.Deployment.Epochs.{start_epochs-Serial, store_laws, load_and_sync_epochs-Serial}
use ccas.Benchmark.{WorkloadConfig}
use ccas.Benchmark.Increments.{sum_of_keys, Serial-sum}
use ccas.Benchmark.Clients.{zero_data}
use ccas.Benchmark.Clients.Starting.{FitsConfig}
use ccas.Benchmark.Clients.Counted.{written, zeros-sum, zero_data-get}
use ccas.Benchmark.Epochs.{EpochBench, EpochTurn, open_epoch_bench, run_epoch_rounds}
use ccas.Benchmark.Epochs.Rounds.{round_rules, BenchOk}
use ccas.Benchmark.Epochs.Steps.{run_epoch_rounds-BenchOk}
use ccas.Benchmark.Epochs.Moving.{run_epoch_rounds-Runs}

-- The commits that have been answered and not been recorded yet.
abbrev pub unrecorded : {S : Type 0} → WorkloadConfig → EpochBench S → ℕ
unrecorded config b =
    owing (round_rules config.num_keys (written config)) b.rounds b.service.clients

module _ (config : WorkloadConfig) (shuffle : ℕ → List String → List String)
    (some_keys : 0 < config.num_keys) (hot_inside : config.hot_part ≤ config.num_keys)
    (permutes : (seed : ℕ) (ks : List String) → Perm (shuffle seed ks) ks)
    (sort : List PendingTxn → List PendingTxn) (sorts : Sorts sort) where
  -- A run of rounds and epochs that is serializable loses no increment.
  pub epoch_rounds-sum :
      {S : Type 0} (st : Store S) (laws : StoreLaws st) (w : Service S) (v : Values) (clients : ℕ)
      (ts : List EpochTurn)
      → sum_of_keys config.num_keys v ≡ 0
      → w.clients ≡ []
      → w.history ≡ []
      → pending w ≡ []
      → ((ms : List Move)
          → length ms ≤ length ts
          → let w' = run_moves st sort w ms in Serial v w'.history (value_at (laws.table w'.store)))
      → let b =
          run_epoch_rounds st sort config shuffle (open_epoch_bench w (replicate clients 0)) ts in
        (sum_of_keys config.num_keys (value_at (laws.table b.service.store))
          ≡ length b.service.history * written config)
        × ((b.collector.total_committed + unrecorded config b) % u64_mod
            ≡ length b.service.history % u64_mod)
        × (b.collector.conflict_count ≡ b.collector.total_aborted)
  unfolding u64_mod
  epoch_rounds-sum st laws w v clients ts zeros no_clients no_history idle serial =
      let opened = open_epoch_bench w (replicate clients 0) in
      let b = run_epoch_rounds st sort config shuffle opened ts in
      let (ms, few, same) = run_epoch_rounds-Runs st sort config shuffle opened ts in
      let first : BenchOk config (written config) opened = record {
        told = 0;
        joined = record {
          jobs_ok = rw no_clients tt;
          goods = rw no_history tt;
          expected = rw idle tt;
          once = rw idle (λ k. omega arith);
          all_told = rw no_history refl;
        };
        committed = omega arith;
        conflicts = refl;
      } in
      let fits : FitsConfig config shuffle (written config) = record {
        some_keys = some_keys;
        hot_inside = hot_inside;
        permutes = permutes;
        counted = refl;
      } in
      let ok =
        run_epoch_rounds-BenchOk st sort config shuffle (written config) opened ts fits sorts
          first in
      let found : Serial v b.service.history (value_at (laws.table b.service.store)) =
        subst (λ (w' : Service _). Serial v w'.history (value_at (laws.table w'.store))) (sym same)
          (serial ms few) in
      let sum = Serial-sum config.num_keys (written config) _ _ _ ok.joined.goods found in
      let all = ok.joined.all_told in
      let counted = ok.committed in (omega arith, omega arith, ok.conflicts)

  -- The benchmark with epoch certification in one process: however the rounds of its clients, the
  -- epochs and `Stop` interleave, and whichever rounds conflict, no increment is lost. At the end
  -- the keys hold as many increments as the committed rounds have written: `WritesPerTxn` each, or
  -- `ReadsPerTxn` if that is less. The commits of the report, with those that have been answered
  -- and not been recorded yet, are all there are, modulo 2^64, and there are as many conflicts as
  -- aborts. There is a key, there are no more hot keys than keys, `rng.Shuffle` permutes, and there
  -- are fewer steps than numbers.
  pub local_epoch_rounds-sum :
      (clients : ℕ) (ts : List EpochTurn)
      → length ts + 1 < u64_mod
      → let b =
          run_epoch_rounds mem_store sort config shuffle
            (open_epoch_bench (start_epochs (zero_data config.num_keys)) (replicate clients 0))
            ts in
        (sum_of_keys config.num_keys (value_at (table b.service.store))
          ≡ length b.service.history * written config)
        × ((b.collector.total_committed + unrecorded config b) % u64_mod
            ≡ length b.service.history % u64_mod)
        × (b.collector.conflict_count ≡ b.collector.total_aborted)
  unfolding start_epochs Epoch.new_epoch_certifier
  local_epoch_rounds-sum clients ts room =
      epoch_rounds-sum mem_store mem_laws (start_epochs (zero_data config.num_keys)) _ clients ts
        (zeros-sum config.num_keys (values_of (zero_data config.num_keys))
          (λ i l. rw (zero_data-get config.num_keys i l, values_of) refl))
        refl refl refl
        (λ ms few.
          start_epochs-Serial sort (zero_data config.num_keys) ms sorts (omega (arith, few)))

  -- The same on a storage server and a certifier server with epochs.
  pub remote_epoch_rounds-sum :
      {N : Type 0} (t : Transport N) (c : EpochCertifier) (s : N × MemStore) (high clients : ℕ)
      (ts : List EpochTurn)
      → Delivers t
      → c.current_batch ≡ []
      → 1 ≤ high
      → c.commit_seq ≤ high
      → ((k : String) (e : Entry) → table s.1 k ≡ some e → (0 < e.version) × (e.version ≤ high))
      → length ts + high < u64_mod
      → let b =
          run_epoch_rounds
            (far_store t)
            sort
            config
            shuffle
            (open_epoch_bench
              (load_and_sync_epochs t c s (zero_data config.num_keys))
              (replicate clients 0))
            ts in
        (sum_of_keys config.num_keys (value_at (table b.service.store.1))
          ≡ length b.service.history * written config)
        × ((b.collector.total_committed + unrecorded config b) % u64_mod
            ≡ length b.service.history % u64_mod)
        × (b.collector.conflict_count ≡ b.collector.total_aborted)
  unfolding load_and_sync_epochs Epoch.sync_from_storage loaded
  remote_epoch_rounds-sum t c s high clients ts t_ok idle one low within room =
      epoch_rounds-sum (far_store t) (store_laws t t_ok sort sorts)
        (load_and_sync_epochs t c s (zero_data config.num_keys)) _ clients ts
        (zeros-sum config.num_keys (value_at (loaded (table s.1) (zero_data config.num_keys)))
          (λ i l. rw (zero_data-get config.num_keys i l, loaded) refl))
        refl refl idle
        (λ ms few.
          load_and_sync_epochs-Serial t t_ok sort sorts c s (zero_data config.num_keys) high ms idle
            one low within (omega (arith, few)))
