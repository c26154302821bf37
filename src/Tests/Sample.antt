-- ===== src/Tests/Sample.antt =====
-- Data that the tests share.
use ccas.Common.{◌<◌, String, ◌≡◌, refl, some, [], ◌∷◌, arith}
use ccas.Dict
use ccas.Types.{TxnRequest}
use ccas.Storage.{Entry}
use ccas.Storage.Mem.{MemStore, new_mem_store, load_initial_data, mem_store}
use ccas.Storage.Mem.Laws.{mem_laws}
use ccas.Ccaas.Epoch.{EpochCertifier}
use ccas.Ccaas.Immediate.{ImmediateCertifier, new_immediate_certifier}
use ccas.Ccaas.Immediate.Laws.{InStep, new_immediate_certifier-InStep}
use ccas.Ccaas.Versions.{scan_versions}
use ccas.Storage.Mem.{dump_state}

-- Two keys, loaded with version 1.
abbrev pub two_keys : MemStore
two_keys = record {
  entries =
      ("y", record { value = "20"; version = 1 })
      ∷ ("x", record { value = "10"; version = 1 })
      ∷ [];
}

two_keys_loaded : load_initial_data new_mem_store (("x", "10") ∷ ("y", "20") ∷ []) ≡ two_keys
unfolding load_initial_data Dict.copy_range Dict.set
two_keys_loaded = refl

-- Every version in it is positive.
pub two_keys_positive :
    (k : String) (e : Entry) → Dict.get two_keys.entries k ≡ some e → 0 < e.version
unfolding Dict.get
two_keys_positive k e h = ground arith

abbrev pub fresh_cert : ImmediateCertifier
fresh_cert = record { latest_version = ("y", 1) ∷ ("x", 1) ∷ []; commit_seq = 1 }

fresh_cert_new : new_immediate_certifier mem_store two_keys ≡ (fresh_cert, two_keys)
unfolding new_immediate_certifier scan_versions dump_state Dict.copy_range Dict.set
fresh_cert_new = refl

pub fresh_cert-InStep : InStep mem_store mem_laws fresh_cert two_keys
unfolding new_immediate_certifier scan_versions dump_state Dict.copy_range Dict.set
fresh_cert-InStep = (new_immediate_certifier-InStep mem_store mem_laws two_keys two_keys_positive).0

-- The same with epochs.
abbrev pub epoch_cert : EpochCertifier
epoch_cert = record {
  latest_version = fresh_cert.latest_version;
  commit_seq = 1;
  current_batch = [];
}

-- A transaction that moves 3 from "x" to "y", having read both at version 1.
abbrev pub transfer : TxnRequest
transfer = record {
  txn_id = "txn-1";
  read_set = record { key = "x"; version_seen = 1 } ∷ record { key = "y"; version_seen = 1 } ∷ [];
  write_set = record { key = "x"; value = "7" } ∷ record { key = "y"; value = "23" } ∷ [];
}
