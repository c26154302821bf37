-- ===== src/Demo/Printing.antt =====
-- cmd/demo/main.go: `printResults`, and how `main` chooses what to run. Of each run the schedule of
-- its calls is a parameter, and so are the order of a batch and the float64 arithmetic.
pub mod Passing
use ccas.Common.{ℕ, ◌+◌, ◌*◌, String, ◌==◌, Bool, List, [], ◌∷◌, ◌++◌, ltb, eqb, if◌then◌else◌}
use ccas.Storage.{Store}
use ccas.Storage.Mem.{MemStore, mem_store}
use ccas.Ccaas.Immediate.{immediate_certifier}
use ccas.Ccaas.Epoch.{PendingTxn}
use ccas.Grpc.{Transport}
use ccas.Deployment.{
  CertifierServer, immediate, with_epochs, start_local, start_epochs, load_and_sync,
  load_and_sync_epochs, far_store, far_certifier,
}
use ccas.Demo.{Turn, num_accounts, initial_balance, initial_data, open_bank, run_turns, balance_sum}
use ccas.Demo.Epochs.{EpochTurn, epoch_stops, open_epoch_bank, run_epoch_turns}

-- What `printResults` prints, less the list of balances; `passes` is "PASS" in place of "FAIL".
pub record Summary (F : Type 0) : Type 0 where
  pub committed : ℕ
  pub aborted : ℕ
  pub abort_rate : F
  pub sum : ℕ
  pub expected : ℕ
  pub passes : Bool

-- How the calls of one demo interleave, in each way of running it; `stop_turns` is what the
-- certifier's goroutine does between the closing of `stopCh` and the end of `Stop`.
pub record Schedules : Type 0 where
  pub far_turns : List Turn
  pub far_epoch_turns : List EpochTurn
  pub near_turns : List Turn
  pub epoch_turns : List EpochTurn
  pub stop_turns : List EpochTurn

-- The transfers and the epochs, then `Stop`.
abbrev pub epoch_schedule : Schedules → List EpochTurn
epoch_schedule sched = sched.epoch_turns ++ epoch_stops ∷ sched.stop_turns

-- `percent aborted total` is `float64(aborted) / float64(total) * 100`.
module _ {F : Type 0} (no_rate : F) (percent : ℕ → ℕ → F) where
  unfoldable pub print_results : {S : Type 0} → Store S → S → ℕ → ℕ → S × Summary F
  print_results st s committed aborted =
      let total = committed + aborted in
      let (s', sum) = balance_sum st s num_accounts in
      let expected = num_accounts * initial_balance in
      (
        s',
        record {
          committed = committed;
          aborted = aborted;
          abort_rate = if ltb 0 total then percent aborted total else no_rate;
          sum = sum;
          expected = expected;
          passes = eqb sum expected;
        },
      )

  -- `runDemo`
  unfoldable pub run_demo : (List PendingTxn → List PendingTxn) → Schedules → ℕ → Summary F
  unfolding print_results
  run_demo sort sched epoch_ms =
      if ltb 0 epoch_ms
      then (let b =
            run_epoch_turns mem_store sort
              (open_epoch_bank (start_epochs (initial_data num_accounts))) (epoch_schedule sched) in
          (print_results mem_store b.service.store b.committed b.aborted).1)
      else (let b =
            run_turns mem_store (immediate_certifier mem_store)
              (open_bank (start_local (initial_data num_accounts))) sched.near_turns in
          (print_results mem_store b.world.store b.committed b.aborted).1)

  module _ {N M : Type 0} (t : Transport N) (u : Transport M) where
    -- `runDemoWith`, on the clients of a storage server and a certifier server.
    unfoldable pub run_demo_with :
        (List PendingTxn → List PendingTxn)
        → Schedules
        → CertifierServer M
        → N × MemStore
        → Summary F
    unfolding print_results
    run_demo_with sort sched (immediate c) s =
        let b =
          run_turns (far_store t) (far_certifier t u)
            (open_bank (load_and_sync t u c s (initial_data num_accounts))) sched.far_turns in
        (print_results (far_store t) b.world.store b.committed b.aborted).1
    run_demo_with sort sched (with_epochs c) s =
        let b =
          run_epoch_turns (far_store t) sort
            (open_epoch_bank (load_and_sync_epochs t c s (initial_data num_accounts)))
            sched.far_epoch_turns in
        (print_results (far_store t) b.service.store b.committed b.aborted).1

    -- `main`, with the flag `mode`, over connections that stand.
    unfoldable pub demo_main :
        (List PendingTxn → List PendingTxn)
        → Schedules
        → CertifierServer M
        → N × MemStore
        → String
        → List (Summary F)
    unfolding run_demo run_demo_with
    demo_main sort sched c s mode =
        if mode == "remote"
        then run_demo_with sort sched c s ∷ []
        else run_demo sort sched 0 ∷ run_demo sort sched 10 ∷ []
