-- ===== src/Demo/Printing/Passing.antt =====
-- Every run of the demo prints "PASS".
use ccas.Common.{
  ℕ, ◌+◌, ◌*◌, ◌≤◌, ◌<◌, String, ◌==◌, ◌≡◌, ap, sym, ◌∙◌, true, some, List, arith, length, u64_mod,
  All, if_both, eqb,
}
use ccas.Storage.{Entry}
use ccas.Storage.Mem.{MemStore}
use ccas.Storage.Mem.Laws.{table}
use ccas.Deployment.{CertifierServer, immediate, with_epochs, Idle, certifier_server}
use ccas.Deployment.Epochs.{certifier_server-Idle}
use ccas.Ccaas.Epoch.{PendingTxn}
use ccas.Ccaas.Epoch.Sorting.{Sorts}
use ccas.Grpc.{Transport, Delivers}
use ccas.Demo.{num_accounts, initial_balance}
use ccas.Demo.Conservation.{local_demo-sum, repeated_demo-sum}
use ccas.Demo.Epochs.Conservation.{epoch_demo-sum, remote_epoch_demo-sum}
use ccas.Demo.Printing.{
  Summary, Schedules, epoch_schedule, print_results, run_demo, run_demo_with, demo_main,
}

expected-eqb :
    {n : ℕ} → n ≡ num_accounts * initial_balance → eqb n (num_accounts * initial_balance) ≡ true
expected-eqb e = ap (λ n. eqb n (num_accounts * initial_balance)) e

module _ {F : Type 0} (no_rate : F) (percent : ℕ → ℕ → F) where
  abbrev pub Passes : Summary F → Type 0
  Passes r = r.passes ≡ true

  run_demo-Passes :
      (sort : List PendingTxn → List PendingTxn) (sched : Schedules) (epoch_ms : ℕ)
      → Sorts sort
      → length sched.near_turns + 1 < u64_mod
      → length (epoch_schedule sched) + 1 < u64_mod
      → Passes (run_demo no_rate percent sort sched epoch_ms)
  unfolding run_demo print_results
  run_demo-Passes sort sched epoch_ms sorts near_room epoch_room =
      if_both Passes _
        (expected-eqb (epoch_demo-sum sort (epoch_schedule sched) sorts epoch_room).0)
        (expected-eqb (local_demo-sum sched.near_turns near_room).0)

  module _ {N M : Type 0} (t : Transport N) (u : Transport M) (t_ok : Delivers t)
      (u_ok : Delivers u) (sort : List PendingTxn → List PendingTxn) (sorts : Sorts sort)
      (sched : Schedules) where
    run_demo_with-Passes :
        (c : CertifierServer M) (s : N × MemStore) (high : ℕ)
        → 1 ≤ high
        → Idle high c
        → ((k : String) (e : Entry) → table s.1 k ≡ some e → (0 < e.version) × (e.version ≤ high))
        → length sched.far_turns + high < u64_mod
        → length sched.far_epoch_turns + high < u64_mod
        → Passes (run_demo_with no_rate percent t u sort sched c s)
    unfolding run_demo_with print_results
    run_demo_with-Passes (immediate (m, c)) s high one low within room epoch_room =
        expected-eqb
          (repeated_demo-sum t u t_ok u_ok m c s high sched.far_turns one low within room).0
    run_demo_with-Passes (with_epochs c) s high one (idle, low) within room epoch_room =
        expected-eqb
          (remote_epoch_demo-sum t sort c s high sched.far_epoch_turns t_ok sorts idle one low
            within epoch_room).0

    -- Whatever the flag `mode` says, and however the calls of the transfers, the epochs and `Stop`
    -- interleave in each run, every balance line of the demo says "PASS". Remotely, over connections
    -- that lose nothing, this holds with either kind of certifier in its server, whatever the storage
    -- server held and the certifier server had certified, with nobody else at work and no
    -- transaction pending. The order of a batch is one that `sort.Slice` may give, the versions in
    -- the store are positive, and the steps of a run leave the counter below the last uint64.
    pub demo_main-Passes :
        (c : CertifierServer M) (s : N × MemStore) (mode : String) (high : ℕ)
        → 1 ≤ high
        → Idle high c
        → ((k : String) (e : Entry) → table s.1 k ≡ some e → (0 < e.version) × (e.version ≤ high))
        → length sched.far_turns + high < u64_mod
        → length sched.far_epoch_turns + high < u64_mod
        → length sched.near_turns + high < u64_mod
        → length (epoch_schedule sched) + high < u64_mod
        → All Passes (demo_main no_rate percent t u sort sched c s mode)
    unfolding demo_main
    demo_main-Passes c s mode high one low within far far_epoch near epoch =
        let local = run_demo-Passes sort sched in
        if_both (All Passes) (mode == "remote")
          (run_demo_with-Passes c s high one low within far far_epoch, tt)
          (
            local 0 sorts (omega arith) (omega arith),
            (local 10 sorts (omega arith) (omega arith), tt),
          )

    -- The whole system started anew on a storage server that may have been in use: the certifier
    -- server starts on it, with any value of `epoch-ms`, and then the demo runs, with any value of
    -- `mode`. Every balance line says "PASS", under the conditions of the demo on running servers.
    pub servers-Pass :
        (epoch_ms : ℕ) (m : M) (s : N × MemStore) (mode : String) (high : ℕ)
        → 1 ≤ high
        → ((k : String) (e : Entry) → table s.1 k ≡ some e → (0 < e.version) × (e.version ≤ high))
        → length sched.far_turns + high < u64_mod
        → length sched.far_epoch_turns + high < u64_mod
        → length sched.near_turns + high < u64_mod
        → length (epoch_schedule sched) + high < u64_mod
        → let (c, s') = certifier_server t epoch_ms m s in
          All Passes (demo_main no_rate percent t u sort sched c s' mode)
    servers-Pass epoch_ms m s mode high one within far far_epoch near epoch =
        let (low, same) = certifier_server-Idle t t_ok epoch_ms m s high within in
        let (c, s') = certifier_server t epoch_ms m s in
        demo_main-Passes c s' mode high one low (λ k e h. within k e (sym (ap (λ x. x k) same) ∙ h))
          far far_epoch near epoch
