-- ===== src/Tests/Epochs.antt =====
-- The epoch certifier with two clients over the same account.
use mathlib.Core.List.{Perm}
use mathlib.Core.List.Perm
use ccas.Common.{
  ℕ, ◌≡◌, refl, false, true, List, [], ◌∷◌, map, arith, u64_mod, inc64, text_ne, replicate,
}
use ccas.Common.Text.{decimal}
use ccas.Dict
use ccas.Storage.Mem.{MemStore, mem_store, get, check_versions, apply_writes, apply_commit}
use ccas.Storage.Mem.Laws.{mem_laws, table}
use ccas.Ccaas.Epoch
use ccas.Ccaas.Epoch.{EpochCertifier, PendingTxn}
use ccas.Ccaas.Epoch.Batch.{answer_of, ticket, process_epoch-answers, process_epoch-deterministic}
use ccas.Common.Sorting.{insertion_sort}
use ccas.Ccaas.Epoch.Sorting.{by_id, by_id-Sorts}
use ccas.Execution
use ccas.Execution.{Txn}
use ccas.World.{Client, begins, reads, writes, commits, read_client, write_client}
use ccas.World.Serial.{Serial, value_at}
use ccas.Service.{
  Service, Move, Loop, call, ticks, works, drains, run_moves, move, waits_in, work, deliver,
  client_call, at_free_client, submit, read_call, swap_batch, certify_next,
}
use ccas.Service.Serializable.{run_moves-Serial}
use ccas.Service.Epochs.{epoch_over, run_moves-process_epoch}
use ccas.Service.Stopped.{Stuck, run_moves-Stuck}
use ccas.Deployment.{first_service}
use ccas.Types.{TxnResult}
use ccas.Ccaas.Outcome.{commit_result}
use ccas.Ccaas.Epoch.Progress.{process_epoch-first_commits}
use ccas.Tests.Sample.{two_keys, epoch_cert, fresh_cert-InStep, transfer}

abbrev served : Service MemStore
served = first_service epoch_cert two_keys

-- Both read "x" and submit before the ticker fires.
abbrev epoch_race : List Move
epoch_race =
    call begins
    ∷ call begins
    ∷ call (reads 0 "x")
    ∷ call (reads 1 "x")
    ∷ call (writes 0 "x" "11")
    ∷ call (writes 1 "x" "12")
    ∷ call (commits 1)
    ∷ call (commits 0)
    ∷ ticks
    ∷ works
    ∷ works
    ∷ works
    ∷ works
    ∷ []

abbrev after_epoch_race : Service MemStore
after_epoch_race = run_moves mem_store by_id served epoch_race

epoch_program : Unit {0}
unfolding run_moves move work deliver client_call at_free_client submit read_call swap_batch
    certify_next read_client write_client get check_versions apply_writes apply_commit
    Epoch.certify_txn Epoch.stamp_writes Epoch.claim Epoch.enqueue insertion_sort Execution.begin
    Execution.read Execution.write Execution.check_active Execution.read_store Dict.get Dict.set
    inc64 u64_mod decimal
epoch_program = tt

-- The smaller id wins, though it was submitted last.
epoch_race_test :
    after_epoch_race.history
    ≡ record { reads = ("x", "10") ∷ []; writes = record { key = "x"; value = "11" } ∷ [] } ∷ []
unfolding epoch_program
epoch_race_test = refl

run_moves-Serial_example :
    Serial
      (value_at (table two_keys))
      after_epoch_race.history
      (value_at (table after_epoch_race.store))
unfolding u64_mod
run_moves-Serial_example =
    run_moves-Serial mem_store mem_laws by_id by_id-Sorts served epoch_race fresh_cert-InStep refl
      refl refl (omega arith)

-- Two transactions that wait, the later id first.
abbrev second : PendingTxn
second = record { req = record transfer { txn_id = "txn-2" }; result_ch = 0 }

abbrev first : PendingTxn
first = record { req = transfer; result_ch = 1 }

abbrev waiting_service : Service MemStore
waiting_service = record served { cert = record epoch_cert { current_batch = second ∷ first ∷ [] } }

run_moves-process_epoch_example :
    run_moves mem_store by_id waiting_service (ticks ∷ replicate 4 works)
    ≡ epoch_over false waiting_service
        (Epoch.process_epoch mem_store by_id waiting_service.cert two_keys)
unfolding insertion_sort
run_moves-process_epoch_example =
    run_moves-process_epoch mem_store by_id false waiting_service 4 refl refl (omega arith)

process_epoch-answers_example :
    let r = Epoch.process_epoch mem_store by_id waiting_service.cert two_keys in
    (r.0.0.current_batch ≡ []) × Perm (map answer_of r.1) (map ticket (second ∷ first ∷ []))
process_epoch-answers_example =
    process_epoch-answers mem_store by_id waiting_service.cert two_keys by_id-Sorts

process_epoch-first_commits_example :
    (rest : List (ℕ × TxnResult)) × ((Epoch.process_epoch mem_store by_id waiting_service.cert
        two_keys).1
      ≡ (1, commit_result transfer 2) ∷ rest)
unfolding insertion_sort u64_mod Dict.get
process_epoch-first_commits_example =
    process_epoch-first_commits mem_store mem_laws by_id waiting_service.cert two_keys second first
      (first ∷ []) (second ∷ []) refl refl fresh_cert-InStep (omega arith) (refl, (refl, tt))

process_epoch-deterministic_example :
    Epoch.process_epoch mem_store by_id
      (record epoch_cert { current_batch = second ∷ first ∷ [] })
      two_keys
    ≡ Epoch.process_epoch mem_store by_id
        (record epoch_cert { current_batch = first ∷ second ∷ [] })
        two_keys
process_epoch-deterministic_example =
    process_epoch-deterministic mem_store by_id by_id epoch_cert two_keys (second ∷ first ∷ [])
      (first ∷ second ∷ []) by_id-Sorts by_id-Sorts ((text_ne "txn-1" "txn-2" refl, tt), (tt, tt))
      (Perm.swap first second [])

-- A client with nothing to check, after `Stop` has returned.
abbrev late_client : Client
late_client = record {
  txn = record {
    id = "txn-1";
    read_set = [];
    write_set = [];
    write_buffer = [];
    read_versions = [];
    aborted = false;
    committed = false;
  };
  seen = [];
}

abbrev stopped_service : Service MemStore
stopped_service = record served {
  clients = late_client ∷ [];
  loop = Loop.returned;
  stop_closed = true;
}

run_moves-Stuck_example :
    Stuck 0 late_client []
      (run_moves mem_store by_id stopped_service (call (commits 0) ∷ ticks ∷ drains ∷ works ∷ []))
unfolding waits_in Execution.check_active
run_moves-Stuck_example =
    run_moves-Stuck mem_store by_id stopped_service 0 late_client (ticks ∷ drains ∷ works ∷ []) refl
      refl refl refl
