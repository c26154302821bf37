-- ===== src/Tests/Remote.antt =====
-- Lost and delivered calls, and stores that refuse.
use mathlib.Core.List.{Memᴰ}
use ccas.Common.{◌≡◌, refl, [], arith, inc64, u64_mod}
use ccas.Dict
use ccas.Storage.{Store}
use ccas.Storage.Mem.{MemStore, mem_store, check_versions, apply_writes, apply_commit}
use ccas.Ccaas.Reasons.{abort}
use ccas.Ccaas.Outcome.{commit_result}
use ccas.Ccaas.Immediate
use ccas.Ccaas.Immediate.{ImmediateCertifier, immediate_certifier}
use ccas.Ccaas.Epoch
use ccas.Ccaas.Epoch.{EpochState}
use ccas.Ccaas.Refused.{ReadsWritten, AllAbort, submit_commit-wedges, certify_txn-drops_error}
use ccas.Ccaas.Versions.{stamp, advance}
use ccas.Grpc.{Transport, Fate, remote, under}
use ccas.Grpc.{answer}
use ccas.Types.{CommitRecord}
use ccas.Grpc.Roundtrip.{messages_roundtrip}
use ccas.Common.{some, text_ne, ◌∷◌}
use ccas.Grpc.Certifying.{
  submit_remote, encode_request, decode_request, encode_result, decode_reply,
}
use ccas.Grpc.Storing.{
  grpc_store, apply_remote, decode_apply, encode_record, decode_record, err_msg,
}
use ccas.Grpc.Delivered.{submit_remote-delivered}
use ccas.Grpc.Lossy.{submit_remote-in_doubt}
use ccas.Storage.Contract.{Table}
use ccas.Storage.Mem.Laws.{table}
use ccas.Tests.Sample.{two_keys, fresh_cert, fresh_cert-InStep, transfer}

-- A connection that loses every response, one that loses every request, and one that loses nothing.
abbrev deaf : Transport (Unit {0})
deaf = record { next = λ n. (n, Fate.lost_response "unavailable") }

abbrev cut_off : Transport (Unit {0})
cut_off = record { next = λ n. (n, Fate.lost_request "unavailable") }

abbrev sound : Transport (Unit {0})
sound = record { next = λ n. (n, Fate.delivered) }

abbrev first_record : CommitRecord
first_record = record {
  commit_seq = 2;
  txn_id = "txn-1";
  writes = record { key = "x"; value = "7"; new_version = 2 } ∷ [];
}

submit_program : Unit {0}
unfolding Immediate.submit_commit Immediate.check_reads Immediate.commit_writes stamp advance
    check_versions apply_writes apply_commit Dict.get Dict.set inc64 u64_mod
submit_program = tt

submit_remote-in_doubt_example :
    let r = submit_remote deaf (immediate_certifier mem_store) (tt, fresh_cert) two_keys transfer in
    (r.1 ≡ abort "txn-1" "unavailable")
    × ((r.0.0.1, r.0.1) ≡ (Immediate.submit_commit mem_store fresh_cert two_keys transfer).0)
unfolding submit_program
submit_remote-in_doubt_example =
    submit_remote-in_doubt deaf (immediate_certifier mem_store) tt fresh_cert two_keys transfer
      "unavailable" refl refl

submit_remote-delivered_example :
    let d = Immediate.submit_commit mem_store fresh_cert two_keys transfer in
    submit_remote sound (immediate_certifier mem_store) (tt, fresh_cert) two_keys transfer
    ≡ (((tt, d.0.0), d.0.1), d.1)
submit_remote-delivered_example =
    submit_remote-delivered sound (immediate_certifier mem_store) tt fresh_cert two_keys transfer
      refl

-- A store whose requests are lost, and its table.
abbrev far_store : Store (Unit {0} × MemStore)
far_store = grpc_store cut_off mem_store

abbrev far_table : Unit {0} × MemStore → Table
far_table p = table p.1

far_program : Unit {0}
unfolding Immediate.check_reads Epoch.check_reads Epoch.check_claims apply_remote remote under
    decode_apply Dict.get Dict.set
far_program = tt

again : ReadsWritten (table two_keys) transfer transfer
unfolding Dict.get
again = (record { key = "x"; value = "7" }, Memᴰ.head refl, Memᴰ.head refl)

-- Afterwards the refused transaction is tried again and again.
submit_commit-wedges_example :
    let r = Immediate.submit_commit far_store fresh_cert (tt, two_keys) transfer in
    (r.1 ≡ abort "txn-1" "unavailable")
    × (far_table r.0.1 ≡ table two_keys)
    × AllAbort far_store far_table r.0.0 r.0.1 (transfer ∷ transfer ∷ [])
unfolding far_program u64_mod
submit_commit-wedges_example =
    submit_commit-wedges far_store far_table fresh_cert (tt, two_keys) transfer "unavailable"
      (transfer ∷ transfer ∷ []) fresh_cert-InStep (omega arith) refl refl refl (again, (again, tt))

abbrev fresh_epoch : EpochState
fresh_epoch = record {
  cert = record { latest_version = fresh_cert.latest_version; commit_seq = 1; current_batch = [] };
  claimed_keys = [];
}

certify_txn-drops_error_example :
    let r = Epoch.certify_txn far_store fresh_epoch (tt, two_keys) transfer in
    (r.1 ≡ commit_result transfer (inc64 1)) × (far_table r.0.1 ≡ table two_keys)
unfolding far_program
certify_txn-drops_error_example =
    certify_txn-drops_error far_store far_table fresh_epoch (tt, two_keys) transfer "unavailable"
      refl refl refl refl

messages_roundtrip_example :
    (decode_request (encode_request transfer) ≡ transfer)
    × (decode_reply transfer (answer (encode_result (commit_result transfer 2)))
        ≡ commit_result transfer 2)
    × (decode_record (encode_record first_record) ≡ first_record)
    × (decode_apply (answer (record { error = err_msg (some "refused") })) ≡ some "refused")
messages_roundtrip_example =
    messages_roundtrip transfer (commit_result transfer 2) first_record (some "refused")
      (λ e. text_ne "refused" "" refl (cc e))
