-- ===== src/Tests/Deciding.antt =====
-- The certifiers' decisions at concrete inputs.
use ccas.Common.{◌≤◌, ◌≡◌, ◌⊎◌, All, arith, u64_mod, [], ◌∷◌}
use ccas.Ccaas.Versions.{IsCurrent}
use ccas.Ccaas.Outcome.{Commits, Aborts}
use ccas.Storage.Mem.{mem_store}
use ccas.Storage.Mem.Laws.{mem_laws, table}
use ccas.Ccaas.Immediate
use ccas.Ccaas.Immediate.Laws as ImmediateLaws
use ccas.Ccaas.Epoch
use ccas.Ccaas.Epoch.{EpochState}
use ccas.Ccaas.Epoch.Certify as Certify
use ccas.Tests.Sample.{two_keys, two_keys_positive, fresh_cert, fresh_cert-InStep, transfer}

submit_commit-decides_example :
    let r = Immediate.submit_commit mem_store fresh_cert two_keys transfer in
    (ImmediateLaws.InStep mem_store mem_laws r.0.0 r.0.1
      × Commits (table two_keys) 1 transfer r.0.0.commit_seq (table r.0.1) r.1)
    ⊎ ((¬ All (IsCurrent (table two_keys)) transfer.read_set)
        × Aborts transfer r.1
        × (r.0 ≡ (fresh_cert, two_keys)))
unfolding u64_mod
submit_commit-decides_example =
    ImmediateLaws.submit_commit-decides mem_store mem_laws fresh_cert two_keys transfer
      fresh_cert-InStep (omega arith)

-- A certifier made before the data was loaded.
abbrev blank_cert : Immediate.ImmediateCertifier
blank_cert = record { latest_version = []; commit_seq = 0 }

sync_from_storage-InStep_example :
    let r = Immediate.sync_from_storage mem_store blank_cert two_keys in
    ImmediateLaws.InStep mem_store mem_laws r.0 r.1
    × (0 ≤ r.0.commit_seq)
    × (table r.1 ≡ table two_keys)
sync_from_storage-InStep_example =
    ImmediateLaws.sync_from_storage-InStep mem_store mem_laws blank_cert two_keys two_keys_positive

-- Another transaction of the epoch has written "y".
abbrev claimed_y : EpochState
claimed_y = record {
  cert = record { latest_version = fresh_cert.latest_version; commit_seq = 1; current_batch = [] };
  claimed_keys = ("y", "txn-0") ∷ [];
}

certify_txn-decides_example :
    let r = Epoch.certify_txn mem_store claimed_y two_keys transfer in
    (Certify.InStep mem_store mem_laws r.0.0 r.0.1
      × Commits (table two_keys) 1 transfer r.0.0.commit_seq (table r.0.1) r.1
      × All (Certify.IsUnclaimed claimed_y.claimed_keys transfer.txn_id) transfer.write_set
      × Certify.Claims claimed_y.claimed_keys transfer r.0.0.claimed_keys)
    ⊎ (((¬ All (IsCurrent (table two_keys)) transfer.read_set)
          ⊎ (¬ All (Certify.IsUnclaimed claimed_y.claimed_keys transfer.txn_id) transfer.write_set))
        × Aborts transfer r.1
        × (r.0 ≡ (claimed_y, two_keys)))
unfolding u64_mod
certify_txn-decides_example =
    Certify.certify_txn-decides mem_store mem_laws claimed_y two_keys transfer fresh_cert-InStep
      (omega arith)
