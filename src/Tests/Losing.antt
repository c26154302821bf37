-- ===== src/Tests/Losing.antt =====
-- Clients behind connections that lose calls.
use ccas.Common.{ℕ, zero, suc, ◌+◌, ◌≡◌, refl, none, List, [], ◌∷◌, arith, inc64, u64_mod, false}
use ccas.Common.Text.{decimal}
use ccas.Dict
use ccas.Storage.Mem.{MemStore, mem_store, get, check_versions, apply_writes, apply_commit}
use ccas.Storage.Mem.Laws.{mem_laws, table}
use ccas.Ccaas.Immediate.{
  ImmediateCertifier, immediate_certifier, check_reads, commit_writes, submit_commit,
}
use ccas.Ccaas.Immediate.Laws.{immediate_laws}
use ccas.Ccaas.Versions.{stamp, advance}
use ccas.Execution
use ccas.Execution.{Txn}
use ccas.World.{Event, begins, reads, writes, commits, write_client}
use ccas.World.Serial.{Serial, value_at}
use ccas.Grpc.{Transport, Fate, remote, under}
use ccas.Grpc.Certifying.{
  submit_remote, encode_request, decode_request, encode_result, decode_reply, serve_submit,
}
use ccas.Grpc.Storing.{grpc_store, get_remote, serve_get, decode_get}
use ccas.Network
use ccas.Network.{Network, run}
use ccas.Network.Reads.{lost_again-read}
use ccas.Network.Serializable.{lossy_run-Serial}
use ccas.Tests.Sample.{two_keys, fresh_cert, fresh_cert-InStep}

-- A connection that loses the second response and no other call.
abbrev hiccup : Transport ℕ
hiccup = record {
  next = λ n. (
    n + 1,
    elim n [
      | zero ↦ Fate.delivered
      | suc k ↦ elim k [ zero ↦ Fate.lost_response "reset" | suc _ ↦ Fate.delivered ]
    ],
  );
}

-- One that loses every response.
abbrev deaf : Transport (Unit {0})
deaf = record { next = λ n. (n, Fate.lost_response "unavailable") }

abbrev start : Network ℕ (Unit {0}) ImmediateCertifier MemStore
start = record {
  link = 0;
  wire = tt;
  cert = fresh_cert;
  store = two_keys;
  engine = Execution.new_engine;
  clients = [];
  history = [];
}

-- Two transactions, one after the other, over the same key.
abbrev calls : List Event
calls =
    begins
    ∷ reads 0 "x"
    ∷ writes 0 "x" "12"
    ∷ commits 0
    ∷ begins
    ∷ reads 1 "x"
    ∷ reads 1 "x"
    ∷ writes 1 "y" "1"
    ∷ commits 1
    ∷ []

lossy_run-Serial_example :
    let w' = run hiccup mem_store deaf (immediate_certifier mem_store) start calls in
    Serial (value_at (table two_keys)) w'.history (value_at (table w'.store))
unfolding u64_mod
lossy_run-Serial_example =
    lossy_run-Serial hiccup mem_store deaf (immediate_certifier mem_store) mem_laws
      (immediate_laws mem_store mem_laws) start calls fresh_cert-InStep refl refl (omega arith)

abbrev rereading : Txn
rereading = record {
  id = "txn-1";
  read_set = record { key = "x"; version_seen = 1 } ∷ [];
  write_set = [];
  write_buffer = [];
  read_versions = ("x", 1) ∷ [];
  aborted = false;
  committed = false;
}

lost_again-read_example :
    let r = Execution.read (grpc_store deaf mem_store) (tt, two_keys) rereading "x" in
    (r.0.1 ≡ rereading) × (r.1 ≡ ("", none))
unfolding Dict.get Execution.check_active
lost_again-read_example =
    lost_again-read deaf mem_store tt two_keys rereading "x" 1 refl refl refl (λ h. cc)

-- The first transaction commits and is told that it has not; the second has lost its first read and
-- aborts.
losing_test :
    (run hiccup mem_store deaf (immediate_certifier mem_store) start calls).history
    ≡ record { reads = ("x", "10") ∷ []; writes = record { key = "x"; value = "12" } ∷ [] } ∷ []
unfolding run Network.step Network.begin_step Network.read_step Network.commit_step
    Network.commits_there Network.is_first write_client Execution.begin Execution.read
    Execution.read_store Execution.note_read Execution.write Execution.commit Execution.check_active
    get check_versions apply_writes apply_commit check_reads commit_writes submit_commit stamp
    advance remote under submit_remote encode_request decode_request encode_result decode_reply
    serve_submit get_remote serve_get decode_get Dict.get Dict.set inc64 u64_mod decimal
losing_test = refl
