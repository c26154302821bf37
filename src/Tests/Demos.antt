-- ===== src/Tests/Demos.antt =====
-- The demo with epoch certification, and its `main`.
use ccas.Common.{
  ◌+◌, length, ◌*◌, ◌≡◌, ◌≤◌, ◌<◌, String, some, refl, ℕ, true, All, List, [], ◌∷◌, arith, u64_mod,
  inc64,
}
use ccas.Common.Text.{decimal}
use ccas.Common.Decimal.{atoi}
use ccas.Common.Sorting.{insertion_sort}
use ccas.Dict
use ccas.Storage.Mem as Mem
use ccas.Storage.Mem.{MemStore, mem_store}
use ccas.Ccaas.Epoch
use ccas.Ccaas.Epoch.Sorting.{by_id, by_id-Sorts}
use ccas.Ccaas.Versions.{scan_versions}
use ccas.Execution
use ccas.World
use ccas.World.{read_client, write_client}
use ccas.Service.{
  Move, call, ticks, works, run_moves, move, waits_in, work, deliver, client_call, at_free_client,
  submit, read_call, swap_batch, certify_next, begin_call, tick, drain,
}
use ccas.Deployment.{start_epochs, load_and_sync_epochs, certifier_server, with_epochs, far_store}
use ccas.Deployment.Epochs.{load_and_sync_epochs-Serial}
use ccas.Storage.{Entry}
use ccas.Storage.Contract.{loaded}
use ccas.Storage.Mem.Laws.{table}
use ccas.World.{begins, reads, writes, commits}
use ccas.World.Serial.{Serial, value_at}
use ccas.Demo
use ccas.Demo.{num_accounts, initial_balance, initial_data, run_turns, balance_sum}
use ccas.Demo.Epochs.{
  EpochBank, EpochTurn, starts, goes, epoch_ticks, epoch_works, epoch_drains, open_epoch_bank,
  run_epoch_turns, epoch_turn, start_transfer, choose, count_result, advance_transfer, resume,
}
use ccas.Demo.Epochs.Conservation.{uncounted, epoch_demo-sum}
use ccas.Demo.Printing.{Schedules, print_results, run_demo, demo_main}
use ccas.Demo.Printing.Passing.{Passes, demo_main-Passes, servers-Pass}
use ccas.Demo.Epochs.Finished.{epoch_demo-ended}
use ccas.Tests.Sample.{two_keys, epoch_cert, fresh_cert-InStep}
use ccas.Tests.Transfers.{sound, turns, one_account}

-- Two transfers over the same accounts meet in one epoch.
abbrev epoch_turns : List EpochTurn
epoch_turns =
    starts 0 1 29
    ∷ starts 1 0 4
    ∷ goes 0
    ∷ goes 1
    ∷ goes 0
    ∷ goes 1
    ∷ goes 0
    ∷ goes 1
    ∷ goes 0
    ∷ goes 1
    ∷ goes 1
    ∷ goes 0
    ∷ goes 0
    ∷ epoch_ticks
    ∷ epoch_works
    ∷ epoch_works
    ∷ epoch_works
    ∷ epoch_works
    ∷ goes 0
    ∷ goes 1
    ∷ []

abbrev after_epochs : EpochBank MemStore
after_epochs =
    run_epoch_turns mem_store by_id (open_epoch_bank (start_epochs (initial_data num_accounts)))
      epoch_turns

epoch_demo-sum_example :
    ((balance_sum mem_store after_epochs.service.store num_accounts).1
      ≡ num_accounts * initial_balance)
    × (after_epochs.committed + uncounted after_epochs ≡ length after_epochs.service.history)
unfolding u64_mod
epoch_demo-sum_example = epoch_demo-sum by_id epoch_turns by_id-Sorts (omega arith)

-- The rate as the numbers that it is made of.
abbrev no_rate : ℕ × ℕ
no_rate = (0, 0)

abbrev rate : ℕ → ℕ → ℕ × ℕ
rate a b = (a, b)

abbrev schedules : Schedules
schedules = record {
  far_turns = turns;
  far_epoch_turns = epoch_turns;
  near_turns = turns;
  epoch_turns = epoch_turns;
  stop_turns = epoch_drains ∷ epoch_works ∷ [];
}

abbrev fresh_cert-fits :
    (k : String) (e : Entry) → table two_keys k ≡ some e → (0 < e.version) × (e.version ≤ 1)
fresh_cert-fits k e h = (fresh_cert-InStep.positive k e h, fresh_cert-InStep.bounded k e h)

-- On servers that hold two other keys.
demo_main-Passes_example : All (Passes no_rate rate) (
    demo_main no_rate rate sound sound by_id schedules
      (with_epochs epoch_cert)
      (tt, two_keys)
      "remote")
unfolding u64_mod
demo_main-Passes_example =
    demo_main-Passes no_rate rate sound sound (λ n. refl) (λ n. refl) by_id by_id-Sorts schedules
      (with_epochs epoch_cert) (tt, two_keys) "remote" 1 (omega arith) (refl, omega arith)
      fresh_cert-fits (omega arith) (omega arith) (omega arith) (omega arith)

servers-Pass_example :
    let (c, s') = certifier_server sound 10 tt (tt, two_keys) in
    All (Passes no_rate rate) (demo_main no_rate rate sound sound by_id schedules c s' "remote")
unfolding u64_mod
servers-Pass_example =
    servers-Pass no_rate rate sound sound (λ n. refl) (λ n. refl) by_id by_id-Sorts schedules 10 tt
      (tt, two_keys) "remote" 1 (omega arith) fresh_cert-fits (omega arith) (omega arith)
      (omega arith) (omega arith)

-- A transaction overwrites what it has read, and waits for the epoch.
abbrev account_moves : List Move
account_moves =
    call begins
    ∷ call (reads 0 "x")
    ∷ call (writes 0 "x" "12")
    ∷ call (commits 0)
    ∷ ticks
    ∷ works
    ∷ works
    ∷ works
    ∷ []

load_and_sync_epochs-Serial_example :
    let w =
      run_moves
        (far_store sound)
        by_id
        (load_and_sync_epochs sound epoch_cert (tt, two_keys) one_account)
        account_moves in
    Serial (value_at (loaded (table two_keys) one_account)) w.history (value_at (table w.store.1))
unfolding u64_mod
load_and_sync_epochs-Serial_example =
    load_and_sync_epochs-Serial sound (λ n. refl) by_id by_id-Sorts epoch_cert (tt, two_keys)
      one_account 1 account_moves refl (omega arith) (omega arith) fresh_cert-fits (omega arith)

demo_program : Unit {0}
unfolding run_demo print_results run_epoch_turns epoch_turn start_transfer choose count_result
    advance_transfer resume balance_sum start_epochs Demo.acct initial_data atoi decimal move work
    deliver client_call at_free_client submit read_call swap_batch certify_next begin_call tick
    drain waits_in read_client write_client World.abort_client Mem.load_initial_data Mem.dump_state
    Mem.get Mem.check_versions Mem.apply_writes Mem.apply_commit Epoch.new_epoch_certifier
    Epoch.certify_txn Epoch.stamp_writes Epoch.claim Epoch.enqueue insertion_sort scan_versions
    Execution.begin Execution.read Execution.write Execution.commit Execution.check_active
    Execution.read_store Execution.note_read Dict.get Dict.set Dict.copy_range inc64 u64_mod
demo_program = tt

-- The transfer with the smaller id commits, the other has read what it overwrote.
run_demo_test : run_demo no_rate rate by_id schedules 10 ≡ record {
  committed = 1;
  aborted = 1;
  abort_rate = (1, 2);
  sum = 10000;
  expected = 10000;
  passes = true;
}
unfolding demo_program
run_demo_test = refl

epoch_demo-ended_example :
    ((balance_sum mem_store after_epochs.service.store num_accounts).1
      ≡ num_accounts * initial_balance)
    × (after_epochs.committed ≡ length after_epochs.service.history)
    × (after_epochs.committed + after_epochs.aborted ≡ length after_epochs.jobs)
unfolding demo_program
epoch_demo-ended_example =
    epoch_demo-ended by_id epoch_turns by_id-Sorts (omega arith) (refl, (refl, tt))
