-- ===== src/Tests/Panicking.antt =====
-- A store that panics in the middle of a batch.
use mathlib.Core.List.{Memᴰ}
use ccas.Common.{◌≡◌, refl, none, some, [], ◌∷◌, arith, inc64, u64_mod, ◌==◌, if◌then◌else◌}
use ccas.Dict
use ccas.Dict.{Dict}
use ccas.Storage.Mem.{MemStore, mem_store, check_versions, apply_writes, apply_commit}
use ccas.Storage.Mem.Laws.{table}
use ccas.Ccaas.Outcome.{commit_result}
use ccas.Ccaas.Reasons.{abort}
use ccas.Ccaas.Epoch
use ccas.Ccaas.Epoch.{PendingTxn, EpochCertifier, EpochState, process_epoch}
use ccas.Ccaas.Epoch.Sorting.{by_id, by_id-Sorts}
use ccas.Common.Sorting.{insertion_sort}
use ccas.Ccaas.Epoch.Panicking.{
  Panics, recovered, received, commit_or_panic, certify_or_panic, batch_or_panic, with_recovery,
  epoch_or_panic,
}
use ccas.Ccaas.Epoch.Panicking.Calm.{epoch_or_panic-calm}
use ccas.Ccaas.Epoch.Panicking.Stale.{AllRead, EpochsRefuse}
use ccas.Ccaas.Epoch.Panicking.Wedged.{panic-wedges}
use ccas.Tests.Sample.{two_keys, fresh_cert, fresh_cert-InStep, transfer}

-- The store panics on the records of one transaction, before it has written anything.
abbrev fragile : Panics MemStore
fragile s r = if r.txn_id == "txn-2" then some (s, "nil map") else none

abbrev sturdy : Panics MemStore
sturdy s r = none

abbrev one : PendingTxn
one = record { req = transfer; result_ch = 7 }

abbrev two : PendingTxn
two = record {
  req = record {
    txn_id = "txn-2";
    read_set = [];
    write_set = record { key = "z"; value = "1" } ∷ [];
  };
  result_ch = 8;
}

abbrev three : PendingTxn
three = record { req = record { txn_id = "txn-3"; read_set = []; write_set = [] }; result_ch = 9 }

abbrev waiting : EpochCertifier
waiting = record {
  latest_version = fresh_cert.latest_version;
  commit_seq = 1;
  current_batch = three ∷ two ∷ one ∷ [];
}

epoch_or_panic-calm_example :
    epoch_or_panic mem_store sturdy by_id waiting two_keys
    ≡ process_epoch mem_store by_id waiting two_keys
epoch_or_panic-calm_example =
    epoch_or_panic-calm mem_store sturdy (λ s r. refl) by_id waiting two_keys

-- The first commits, and the two others are told of the panic.
panic_test :
    let sent = (epoch_or_panic mem_store fragile by_id waiting two_keys).1 in
    (received 7 sent ≡ some (commit_result transfer 2))
    × (received 8 sent ≡ some (abort "txn-2" "epoch panic: nil map"))
    × (received 9 sent ≡ some (abort "txn-3" "epoch panic: nil map"))
unfolding epoch_or_panic batch_or_panic certify_or_panic commit_or_panic with_recovery recovered
    received insertion_sort Epoch.commit_writes Epoch.stamp_writes Epoch.claim check_versions
    apply_writes apply_commit Dict.get Dict.set inc64 u64_mod
panic_test = (refl, refl, refl)

-- The store panics on every record.
abbrev broken : Panics MemStore
broken s r = some (s, "disk")

abbrev one_waits : EpochCertifier
one_waits = record {
  latest_version = fresh_cert.latest_version;
  commit_seq = 1;
  current_batch = one ∷ [];
}

again : AllRead mem_store broken table two_keys transfer (one ∷ [])
unfolding Dict.get
again = ((record { key = "x"; value = "7" }, Memᴰ.head refl, Memᴰ.head refl), tt)

-- The transaction is tried again in the next two epochs.
panic-wedges_example :
    let r = epoch_or_panic mem_store broken by_id one_waits two_keys in
    (received 7 r.1 ≡ some (abort "txn-1" "epoch panic: disk"))
    × (table r.0.1 ≡ table two_keys)
    × EpochsRefuse mem_store broken table by_id r.0.0 r.0.1 ((one ∷ []) ∷ (one ∷ []) ∷ [])
unfolding Epoch.check_reads Dict.get u64_mod insertion_sort
panic-wedges_example =
    panic-wedges mem_store broken table by_id one_waits two_keys two_keys one one [] [] "disk"
      ((one ∷ []) ∷ (one ∷ []) ∷ []) by_id-Sorts refl refl fresh_cert-InStep (omega arith) refl refl
      refl (again, (again, tt))
