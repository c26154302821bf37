-- ===== src/Tests/Transfers.antt =====
-- The demo on a few turns, and the deployments on a few calls.
use ccas.Common.{◌*◌, ◌≡◌, refl, String, List, [], ◌∷◌, arith, length, u64_mod, inc64}
use ccas.Common.Text.{decimal}
use ccas.Common.Decimal.{atoi}
use ccas.Dict
use ccas.Dict.{Dict}
use ccas.Storage.Mem.{mem_store}
use ccas.Storage.Mem as Mem
use ccas.Storage.Mem.Laws.{table}
use ccas.Ccaas.Immediate
use ccas.Ccaas.Immediate.{immediate_certifier}
use ccas.Ccaas.Versions.{stamp, advance, scan_versions}
use ccas.Execution
use ccas.World.{Event, begins, reads, writes, commits, World, run}
use ccas.World
use ccas.World.Serial.{Serial, value_at}
use ccas.Grpc.{Transport, Fate}
use ccas.Deployment.{values_of, start_local, far_store, far_certifier}
use ccas.Deployment.Serializable.{start_local-Serial}
use ccas.Demo
use ccas.Demo.{
  Turn, starts, goes, num_accounts, initial_balance, initial_data, open_bank, run_turns,
  balance_sum,
}
use ccas.Demo.Conservation.{local_demo-sum, repeated_demo-sum}
use ccas.Tests.Sample.{two_keys, fresh_cert, fresh_cert-InStep}
use ccas.Storage.Contract.{loaded}
use ccas.Deployment.{load_and_sync}
use ccas.Deployment.Serializable.{load_and_sync-Serial}

abbrev pub sound : Transport (Unit {0})
sound = record { next = λ n. (n, Fate.delivered) }

abbrev pub one_account : Dict String
one_account = Dict.set [] "x" "10"

-- One transaction overwrites what it has read.
abbrev calls : List Event
calls = begins ∷ reads 0 "x" ∷ writes 0 "x" "12" ∷ commits 0 ∷ []

start_local-Serial_example :
    let w = run mem_store (immediate_certifier mem_store) (start_local one_account) calls in
    Serial (values_of one_account) w.history (value_at (table w.store))
unfolding u64_mod
start_local-Serial_example = start_local-Serial one_account calls (omega arith)

-- Two transfers over the same accounts, each read of the second before the commit of the first.
abbrev pub turns : List Turn
turns =
    starts 0 1 29
    ∷ starts 1 0 4
    ∷ goes 0
    ∷ goes 1
    ∷ goes 0
    ∷ goes 1
    ∷ goes 0
    ∷ goes 0
    ∷ goes 1
    ∷ goes 1
    ∷ goes 0
    ∷ goes 1
    ∷ []

local_demo-sum_example :
    let b =
      run_turns mem_store
        (immediate_certifier mem_store)
        (open_bank (start_local (initial_data num_accounts)))
        turns in
    ((balance_sum mem_store b.world.store num_accounts).1 ≡ num_accounts * initial_balance)
    × (b.committed ≡ length b.world.history)
unfolding u64_mod
local_demo-sum_example = local_demo-sum turns (omega arith)

-- Servers that hold two other keys.
load_and_sync-Serial_example :
    let w =
      run
        (far_store sound)
        (far_certifier sound sound)
        (load_and_sync sound sound (tt, fresh_cert) (tt, two_keys) one_account)
        calls in
    Serial (value_at (loaded (table two_keys) one_account)) w.history (value_at (table w.store.1))
unfolding u64_mod
load_and_sync-Serial_example =
    load_and_sync-Serial sound sound (λ n. refl) (λ n. refl) tt fresh_cert (tt, two_keys)
      one_account 1 calls (omega arith) (omega arith)
      (λ k e h. (fresh_cert-InStep.positive k e h, fresh_cert-InStep.bounded k e h)) (omega arith)

repeated_demo-sum_example :
    let b =
      run_turns
        (far_store sound)
        (far_certifier sound sound)
        (open_bank
          (load_and_sync sound sound (tt, fresh_cert) (tt, two_keys) (initial_data num_accounts)))
        turns in
    ((balance_sum (far_store sound) b.world.store num_accounts).1 ≡ num_accounts * initial_balance)
    × (b.committed ≡ length b.world.history)
unfolding u64_mod
repeated_demo-sum_example =
    repeated_demo-sum sound sound (λ n. refl) (λ n. refl) tt fresh_cert (tt, two_keys) 1 turns
      (omega arith) (omega arith)
      (λ k e h. (fresh_cert-InStep.positive k e h, fresh_cert-InStep.bounded k e h)) (omega arith)

-- The first transfer commits, the second has read what the first overwrote.
run_turns_test :
    let b =
      run_turns mem_store
        (immediate_certifier mem_store)
        (open_bank (start_local (initial_data num_accounts)))
        turns in
    (b.committed ≡ 1)
    × (b.aborted ≡ 1)
    × ((Mem.get b.world.store "acct-0").value ≡ "970")
    × ((Mem.get b.world.store "acct-1").value ≡ "1030")
unfolding start_local run_turns Demo.turn Demo.start_job Demo.advance_job Demo.decide
    Demo.finish_job Demo.acct initial_data atoi decimal World.step World.begin_step World.read_step
    World.read_client World.write_client World.commit_step Mem.load_initial_data Mem.dump_state
    Mem.get Mem.check_versions Mem.apply_writes Mem.apply_commit Immediate.new_immediate_certifier
    Immediate.check_reads Immediate.commit_writes Immediate.submit_commit stamp advance
    scan_versions Execution.begin Execution.read Execution.write Execution.commit
    Execution.check_active Execution.read_store Execution.note_read Dict.get Dict.set
    Dict.copy_range inc64 u64_mod
run_turns_test = (refl, refl, refl, refl)
