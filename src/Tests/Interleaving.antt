-- ===== src/Tests/Interleaving.antt =====
-- Two transactions over the same account, interleaved.
use ccas.Common.{some, ◌++◌, get_elem?, ◌≡◌, refl, List, [], ◌∷◌, arith, u64_mod, inc64}
use ccas.Common.Text.{decimal}
use ccas.Dict
use ccas.Storage.Mem.{MemStore, mem_store, get, check_versions, apply_writes, apply_commit}
use ccas.Storage.Mem.Laws.{mem_laws, table}
use ccas.Ccaas.Immediate.{
  ImmediateCertifier, immediate_certifier, check_reads, commit_writes, submit_commit,
}
use ccas.Ccaas.Immediate.Laws.{immediate_laws}
use ccas.Ccaas.Versions.{stamp, advance}
use ccas.Execution
use ccas.World.{
  Client, World, Event, begins, reads, writes, commits, aborts, syncs, run, step, begin_step,
  read_step, read_client, write_client, commit_step,
}
use ccas.World.Serial.{Serial, value_at}
use ccas.World.Serializable.{run-Serial}
use ccas.Storage.Contract.{overwrite}
use ccas.World.Settling.{done_of}
use ccas.World.Progress.{first_commit-wins}
use ccas.Tests.Sample.{two_keys, fresh_cert, fresh_cert-InStep}

abbrev first_world : World ImmediateCertifier MemStore
first_world = record {
  cert = fresh_cert;
  store = two_keys;
  engine = Execution.new_engine;
  clients = [];
  history = [];
}

-- Both read "x" before either commits.
abbrev race : List Event
race =
    begins
    ∷ begins
    ∷ reads 0 "x"
    ∷ reads 1 "x"
    ∷ writes 0 "x" "11"
    ∷ writes 1 "x" "12"
    ∷ commits 1
    ∷ commits 0
    ∷ []

abbrev after_race : World ImmediateCertifier MemStore
after_race = run mem_store (immediate_certifier mem_store) first_world race

program : Unit {0}
unfolding run step begin_step read_step read_client write_client commit_step get check_versions
    apply_writes apply_commit check_reads commit_writes submit_commit stamp advance Execution.begin
    Execution.read Execution.write Execution.commit Execution.check_active Execution.read_store
    Dict.get Dict.set inc64 u64_mod decimal
program = tt

-- The first to commit wins, and the other leaves no trace.
race_test :
    after_race.history
    ≡ record { reads = ("x", "10") ∷ []; writes = record { key = "x"; value = "12" } ∷ [] } ∷ []
unfolding program
race_test = refl

run-Serial_example :
    Serial (value_at (table two_keys)) after_race.history (value_at (table after_race.store))
unfolding u64_mod
run-Serial_example =
    run-Serial mem_store mem_laws (immediate_certifier mem_store)
      (immediate_laws mem_store mem_laws) first_world race fresh_cert-InStep refl refl (omega arith)

-- A transaction that writes what another one reads; the other one gives up.
abbrev quiet_calls : List Event
quiet_calls = begins ∷ reads 1 "x" ∷ reads 0 "x" ∷ writes 0 "x" "13" ∷ aborts 1 ∷ syncs ∷ []

first_commit-wins_example :
    let cert = immediate_certifier mem_store in
    let w' = run mem_store cert first_world (begins ∷ quiet_calls) in
    let w'' = step mem_store cert w' (commits 0) in
    (cl : Client) × (get_elem? w'.clients 0 ≡ some cl)
    × (w''.history ≡ w'.history ++ done_of cl ∷ [])
    × (table w''.store ≡ overwrite (table two_keys) (stamp 2 cl.txn.write_set))
unfolding u64_mod
first_commit-wins_example =
    first_commit-wins mem_store mem_laws (immediate_certifier mem_store)
      (immediate_laws mem_store mem_laws) first_world quiet_calls fresh_cert-InStep (omega arith)
      (refl, (refl, (refl, (refl, (refl, (refl, tt))))))
