-- ===== src/Tests/Benching.antt =====
-- Two clients of the benchmark over the same two keys.
use mathlib.Core.List.Perm
use ccas.Common.{
  true, ℕ, ◌/◌, ◌*◌, ◌%◌, ◌≡◌, refl, List, [], ◌∷◌, arith, length, u64_mod, inc64, replicate,
}
use ccas.Common.Text.{decimal}
use ccas.Common.Decimal.{atoi}
use ccas.Dict
use ccas.Storage.Mem as Mem
use ccas.Storage.Mem.{MemStore, mem_store}
use ccas.Storage.Mem.Laws.{table}
use ccas.Ccaas.Immediate
use ccas.Ccaas.Immediate.{ImmediateCertifier, immediate_certifier}
use ccas.Ccaas.Versions.{stamp, advance, scan_versions}
use ccas.Ccaas.Epoch
use ccas.Service
use ccas.Common.Sorting.{insertion_sort}
use ccas.Execution
use ccas.World
use ccas.World.Serial.{value_at}
use ccas.Metrics.{record_commit, record_abort, record_conflict, Floats}
use ccas.Deployment.{start_local}
use ccas.Benchmark.{
  key_name, pick_index, default_config, low_contention_read_heavy, high_contention_write_heavy,
}
use ccas.Benchmark as Bm
use ccas.Benchmark.Increments.{sum_of_keys}
use ccas.Benchmark.Clients as Clients
use ccas.Benchmark.Clients.{Bench, Turn, starts, goes, zero_data, open_bench, run_rounds}
use ccas.Benchmark.Clients.Counted.{run_rounds-sum}
use ccas.Ccaas.Epoch.Sorting.{by_id, by_id-Sorts}
use ccas.Deployment.{start_epochs, with_epochs}
use ccas.Benchmark.Running.{RunSchedules, benchmark_main}
use ccas.Benchmark.Running.Complete.{IsComplete, benchmark_main-IsComplete}
use ccas.Benchmark.Epochs as Epochs
use ccas.Benchmark.Epochs.{EpochBench, EpochTurn, open_epoch_bench, run_epoch_rounds}
use ccas.Tests.Sample.{two_keys, epoch_cert, fresh_cert-InStep}
use ccas.Tests.Transfers.{sound}
use ccas.Tests.Picking.{two_names, three_draws}

-- Both read "key-0" before either commits, and the one that loses tries again.
abbrev rounds : List Turn
rounds =
    starts 0 three_draws 0
    ∷ starts 1 three_draws 0
    ∷ goes 0 5
    ∷ goes 1 5
    ∷ goes 0 5
    ∷ goes 1 5
    ∷ goes 0 5
    ∷ goes 1 5
    ∷ goes 0 5
    ∷ goes 1 7
    ∷ starts 1 three_draws 1
    ∷ goes 2 5
    ∷ goes 2 5
    ∷ goes 2 5
    ∷ goes 2 5
    ∷ starts 0 three_draws 1
    ∷ []

abbrev after_rounds : Bench ImmediateCertifier MemStore
after_rounds =
    run_rounds mem_store (immediate_certifier mem_store) two_names (λ seed ks. ks)
      (open_bench (start_local (zero_data 2)) (replicate 2 0)) rounds

run_rounds-sum_example :
    (sum_of_keys 2 (value_at (table after_rounds.world.store))
      ≡ length after_rounds.world.history * 1)
    × (after_rounds.collector.total_committed ≡ length after_rounds.world.history % u64_mod)
    × (after_rounds.collector.conflict_count ≡ after_rounds.collector.total_aborted)
unfolding u64_mod
run_rounds-sum_example =
    run_rounds-sum two_names (λ seed ks. ks) (omega arith) (omega arith) (λ seed ks. Perm.refl ks) 2
      rounds (omega arith)

-- Each client has completed its round, one of them after an abort.
run_rounds_test :
    ((Mem.get after_rounds.world.store "key-0").value ≡ "2")
    × (after_rounds.completed ≡ 1 ∷ 1 ∷ [])
    × (after_rounds.collector ≡ record {
      total_committed = 2;
      total_aborted = 1;
      latencies = 5 ∷ 7 ∷ 5 ∷ [];
      epoch_sizes = [];
      conflict_count = 1;
    })
unfolding start_local run_rounds Clients.turn Clients.start_round Clients.advance
    Clients.finish_round zero_data key_name Bm.hot_keys pick_index Bm.pick_more Bm.pick_keys
    Bm.pick_from_slice record_commit record_abort record_conflict atoi decimal World.step
    World.begin_step World.read_step World.read_client World.write_client World.commit_step
    Mem.load_initial_data Mem.dump_state Mem.get Mem.check_versions Mem.apply_writes
    Mem.apply_commit Immediate.new_immediate_certifier Immediate.check_reads Immediate.commit_writes
    Immediate.submit_commit stamp advance scan_versions Execution.begin Execution.read
    Execution.write Execution.commit Execution.check_active Execution.read_store Execution.note_read
    Dict.get Dict.set Dict.copy_range inc64 u64_mod
run_rounds_test = (refl, refl, refl)

-- Both rounds meet in one epoch, and the one that loses tries again.
abbrev epoch_rounds : List EpochTurn
epoch_rounds =
    EpochTurn.starts 0 three_draws 0
    ∷ EpochTurn.starts 1 three_draws 0
    ∷ EpochTurn.goes 0 5
    ∷ EpochTurn.goes 1 5
    ∷ EpochTurn.goes 0 5
    ∷ EpochTurn.goes 1 5
    ∷ EpochTurn.goes 0 5
    ∷ EpochTurn.goes 1 5
    ∷ EpochTurn.goes 1 5
    ∷ EpochTurn.goes 0 5
    ∷ EpochTurn.goes 0 5
    ∷ EpochTurn.epoch_ticks
    ∷ EpochTurn.epoch_works
    ∷ EpochTurn.epoch_works
    ∷ EpochTurn.epoch_works
    ∷ EpochTurn.epoch_works
    ∷ EpochTurn.goes 0 7
    ∷ EpochTurn.goes 1 9
    ∷ EpochTurn.starts 1 three_draws 1
    ∷ EpochTurn.starts 0 three_draws 1
    ∷ []

abbrev after_epochs : EpochBench MemStore
after_epochs =
    run_epoch_rounds mem_store by_id two_names (λ seed ks. ks)
      (open_epoch_bench (start_epochs (zero_data 2)) (replicate 2 0)) epoch_rounds

-- One client has completed its round, and the other has begun again.
run_epoch_rounds_test :
    ((Mem.get after_epochs.service.store "key-0").value ≡ "1")
    × (after_epochs.completed ≡ 1 ∷ 0 ∷ [])
    × (length after_epochs.rounds ≡ 3)
    × (after_epochs.collector ≡ record {
      total_committed = 1;
      total_aborted = 1;
      latencies = 7 ∷ 9 ∷ [];
      epoch_sizes = [];
      conflict_count = 1;
    })
unfolding start_epochs run_epoch_rounds Epochs.bench_turn Epochs.start_waiting_round
    Epochs.resume_round Epochs.collect Epochs.advance_round zero_data key_name Bm.hot_keys
    pick_index Bm.pick_more Bm.pick_keys Bm.pick_from_slice record_commit record_abort
    record_conflict atoi decimal Service.move Service.work Service.deliver Service.client_call
    Service.at_free_client Service.submit Service.read_call Service.swap_batch Service.certify_next
    Service.begin_call Service.tick Service.waits_in World.read_client World.write_client
    Mem.load_initial_data Mem.dump_state Mem.get Mem.check_versions Mem.apply_writes
    Mem.apply_commit Epoch.new_epoch_certifier Epoch.certify_txn Epoch.stamp_writes Epoch.claim
    Epoch.enqueue insertion_sort scan_versions Execution.begin Execution.read Execution.write
    Execution.commit Execution.check_active Execution.read_store Execution.note_read Dict.get
    Dict.set Dict.copy_range inc64 u64_mod
run_epoch_rounds_test = (refl, refl, refl, refl)

abbrev run_schedules : RunSchedules
run_schedules = record {
  far_turns = rounds;
  far_epoch_turns = epoch_rounds;
  near_turns = rounds;
  epoch_turns = epoch_rounds;
  stop_turns = EpochTurn.epoch_drains ∷ EpochTurn.epoch_works ∷ [];
}

-- The rates as nothing; the time is not looked at.
abbrev floats : Floats (Unit {0})
floats = record { zero_float = tt; ratio = λ a b. tt; per_second = λ a b. tt; index95 = λ n. n }

-- On servers that hold two other keys, the certifier with epochs.
benchmark_main-IsComplete_example :
    IsComplete floats
      (λ ls. ls)
      1000
      two_names
      (benchmark_main sound sound by_id
        (λ seed ks. ks)
        run_schedules
        two_names
        (with_epochs epoch_cert)
        (tt, two_keys)
        "remote")
unfolding u64_mod
benchmark_main-IsComplete_example =
    benchmark_main-IsComplete floats (λ ls. ls) 1000 sound sound (λ n. refl) (λ n. refl) by_id
      by_id-Sorts (λ seed ks. ks) (λ seed ks. Perm.refl ks) run_schedules two_names (omega arith)
      (omega arith) (with_epochs epoch_cert) (tt, two_keys) "remote" 1 (omega arith)
      (refl, omega arith)
      (λ k e h. (fresh_cert-InStep.positive k e h, fresh_cert-InStep.bounded k e h)) (omega arith)
      (omega arith) (omega arith) (omega arith)

abbrev tenth : ℕ → ℕ
tenth n = n / 10

-- Of the ready-made workloads only the write-heavy one has hot keys, a tenth of its keys.
presets_test :
    (pick_index (high_contention_write_heavy tenth) (record { is_hot = true; number = 123 }) ≡ 3)
    × (pick_index (low_contention_read_heavy tenth) (record { is_hot = true; number = 123 }) ≡ 123)
unfolding Bm.hot_keys pick_index default_config low_contention_read_heavy
    high_contention_write_heavy
presets_test = (refl, refl)
