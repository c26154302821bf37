-- ===== src/Benchmark/Clients/Counted.antt =====
-- What the benchmark reports agrees with what the store holds.
use mathlib.Core.List.{Perm}
use ccas.Common.{
  ℕ, zero, suc, ◌+◌, ◌*◌, ◌%◌, ◌≤◌, ◌<◌, String, ◌≡◌, ◌≢◌, refl, sym, ap, subst, ◌∙◌, inl, inr,
  some, List, [], arith, length, leb, if◌then◌else◌, u64_mod, text_cases, replicate,
}
use ccas.Common.Decimal.{atoi}
use ccas.Common.Sums.{sum_to_zero}
use ccas.Dict
use ccas.Dict.{get-set}
use ccas.Storage.{Store}
use ccas.Storage.Mem.{mem_store}
use ccas.Storage.Mem.Laws.{table}
use ccas.Ccaas.{Certifier}
use ccas.Ccaas.Immediate.{immediate_certifier}
use ccas.World.{World, run}
use ccas.World.Serial.{value_at, Serial}
use ccas.Deployment.{values_of, start_local}
use ccas.Deployment.Serializable.{start_local-Serial}
use ccas.Benchmark.{WorkloadConfig, key_name}
use ccas.Benchmark.Increments.{sum_of_keys, Serial-sum}
use ccas.Benchmark.Clients.{Turn, zero_data, open_bench, run_rounds}
use ccas.Benchmark.Clients.Calls.{run_rounds-Runs}
use ccas.Storage.{Entry}
use ccas.Storage.Mem.{MemStore}
use ccas.Storage.Contract.{StoreLaws, loaded}
use ccas.Storage.Mem.Laws.{mem_laws}
use ccas.Ccaas.Immediate.{ImmediateCertifier}
use ccas.World.{Event}
use ccas.World.Serial.{Values}
use ccas.Grpc.{Transport, Delivers}
use ccas.Deployment.{load_and_sync, far_store, far_certifier}
use ccas.Deployment.Serializable.{load_and_sync-Serial, far_laws}
use ccas.Common.Sums.{sum_to-same}
use ccas.Benchmark.Clients.Starting.{FitsConfig}
use ccas.Benchmark.Clients.Steps.{BenchOk, run_rounds-BenchOk}

before : (i n : ℕ) → i < suc n → i ≢ n → i < n
before i n l ne = ground arith

pub zero_data-get : (n i : ℕ) → i < n → Dict.get (zero_data n) (key_name i) ≡ some "0"
unfolding zero_data
zero_data-get zero i l = absurd (omega arith)
zero_data-get (suc n) i l = elim (text_cases (key_name n) (key_name i)) [
  | inl (e, same) ↦ get-set (zero_data n) (key_name n) (key_name i) "0" ∙ rw same refl
  | inr (ne, differ) ↦
      let below : i < n = before i n l (λ e. ne (ap key_name (sym e))) in
      get-set (zero_data n) (key_name n) (key_name i) "0" ∙ rw differ (zero_data-get n i below)
]

-- Keys that all hold "0".
pub zeros-sum :
    (n : ℕ) (v : Values) → ((i : ℕ) → i < n → v (key_name i) ≡ "0") → sum_of_keys n v ≡ 0
unfolding atoi
zeros-sum n v h =
    sum_to-same (λ i. atoi (v (key_name i))) (λ i. 0) n (λ i l. ap atoi (h i l)) ∙ sum_to_zero n

-- What a transaction writes: `WritesPerTxn` keys, or `ReadsPerTxn` if that is less.
abbrev pub written : WorkloadConfig → ℕ
written config =
    if leb config.writes_per_txn config.reads_per_txn
    then config.writes_per_txn
    else config.reads_per_txn

module _ (config : WorkloadConfig) (shuffle : ℕ → List String → List String)
    (some_keys : 0 < config.num_keys) (hot_inside : config.hot_part ≤ config.num_keys)
    (permutes : (seed : ℕ) (ks : List String) → Perm (shuffle seed ks) ks) where
  -- A run of rounds that is serializable loses no increment.
  rounds-sum :
      {C S : Type 0} (st : Store S) (laws : StoreLaws st) (cert : Certifier C S) (w : World C S)
      (v : Values) (clients : ℕ) (ts : List Turn)
      → sum_of_keys config.num_keys v ≡ 0
      → w.clients ≡ []
      → w.history ≡ []
      → ((es : List Event)
          → length es ≤ length ts
          → let w' = run st cert w es in Serial v w'.history (value_at (laws.table w'.store)))
      → let b = run_rounds st cert config shuffle (open_bench w (replicate clients 0)) ts in
        (sum_of_keys config.num_keys (value_at (laws.table b.world.store))
          ≡ length b.world.history * written config)
        × (b.collector.total_committed ≡ length b.world.history % u64_mod)
        × (b.collector.conflict_count ≡ b.collector.total_aborted)
  unfolding u64_mod
  rounds-sum st laws cert w v clients ts zeros no_clients no_history serial =
      let opened = open_bench w (replicate clients 0) in
      let b = run_rounds st cert config shuffle opened ts in
      let (es, few, same) = run_rounds-Runs st cert config shuffle opened ts in
      let first : BenchOk st cert config shuffle (written config) opened = record {
        jobs_ok = rw no_clients tt;
        increments = rw no_history tt;
        committed = rw no_history (omega arith);
        conflicts = refl;
      } in
      let fits : FitsConfig config shuffle (written config) = record {
        some_keys = some_keys;
        hot_inside = hot_inside;
        permutes = permutes;
        counted = refl;
      } in
      let ok = run_rounds-BenchOk st cert config shuffle (written config) opened ts fits first in
      let found : Serial v b.world.history (value_at (laws.table b.world.store)) =
        subst (λ (w' : World _ _). Serial v w'.history (value_at (laws.table w'.store))) (sym same)
          (serial es few) in
      let sum = Serial-sum config.num_keys (written config) _ _ _ ok.increments found in
      (omega arith, ok.committed, ok.conflicts)

  -- The benchmark with immediate certification in one process: however the rounds of its clients
  -- interleave and whichever conflict, no increment is lost. At the end the keys hold as many
  -- increments as the committed rounds have written: `WritesPerTxn` each, or `ReadsPerTxn` if that
  -- is less. The report counts the commits, modulo 2^64, and as many conflicts as aborts. There is a
  -- key, there are no more hot keys than keys, `rng.Shuffle` permutes, and there are fewer calls
  -- than numbers.
  pub run_rounds-sum :
      (clients : ℕ) (ts : List Turn)
      → length ts + 1 < u64_mod
      → let b =
          run_rounds mem_store
            (immediate_certifier mem_store)
            config
            shuffle
            (open_bench (start_local (zero_data config.num_keys)) (replicate clients 0))
            ts in
        (sum_of_keys config.num_keys (value_at (table b.world.store))
          ≡ length b.world.history * written config)
        × (b.collector.total_committed ≡ length b.world.history % u64_mod)
        × (b.collector.conflict_count ≡ b.collector.total_aborted)
  unfolding start_local
  run_rounds-sum clients ts room =
      rounds-sum mem_store mem_laws (immediate_certifier mem_store)
        (start_local (zero_data config.num_keys)) _ clients ts
        (zeros-sum config.num_keys (values_of (zero_data config.num_keys))
          (λ i l. rw (zero_data-get config.num_keys i l, values_of) refl))
        refl refl (λ es few. start_local-Serial (zero_data config.num_keys) es (omega (arith, few)))

  -- The benchmark on a storage server and a certifier server, which may have been in use, over
  -- connections that lose nothing, with nobody else at work. It loads its data and syncs the
  -- certifier; then, however the rounds of its clients interleave, the keys hold at the end as many
  -- increments as the committed rounds have written, `WritesPerTxn` each, or `ReadsPerTxn` if that
  -- is less, and the report counts the commits, modulo 2^64, and as many conflicts as aborts. There
  -- is a key, there are no more hot keys than keys, `rng.Shuffle` permutes, the versions in the
  -- store are positive, and the number of calls leaves the counter below the last uint64.
  pub remote_rounds-sum :
      {N M : Type 0} (t : Transport N) (u : Transport M) (m : M) (c : ImmediateCertifier)
      (s : N × MemStore) (high clients : ℕ) (ts : List Turn)
      → Delivers t
      → Delivers u
      → 1 ≤ high
      → c.commit_seq ≤ high
      → ((k : String) (e : Entry) → table s.1 k ≡ some e → (0 < e.version) × (e.version ≤ high))
      → length ts + high < u64_mod
      → let b =
          run_rounds
            (far_store t)
            (far_certifier t u)
            config
            shuffle
            (open_bench
              (load_and_sync t u (m, c) s (zero_data config.num_keys))
              (replicate clients 0))
            ts in
        (sum_of_keys config.num_keys (value_at (table b.world.store.1))
          ≡ length b.world.history * written config)
        × (b.collector.total_committed ≡ length b.world.history % u64_mod)
        × (b.collector.conflict_count ≡ b.collector.total_aborted)
  unfolding load_and_sync loaded
  remote_rounds-sum t u m c s high clients ts t_ok u_ok one low within room =
      rounds-sum (far_store t) (far_laws t u t_ok u_ok) (far_certifier t u)
        (load_and_sync t u (m, c) s (zero_data config.num_keys)) _ clients ts
        (zeros-sum config.num_keys (value_at (loaded (table s.1) (zero_data config.num_keys)))
          (λ i l. rw (zero_data-get config.num_keys i l, loaded) refl))
        refl refl
        (λ es few.
          load_and_sync-Serial t u t_ok u_ok m c s (zero_data config.num_keys) high es one low
            within (omega (arith, few)))
