-- ===== src/Demo/Epochs/Finished.antt =====
-- What the demo shows under epoch certification once every transfer has ended, as `runTransfers`
-- waits for.
use ccas.Common.{◌+◌, ◌*◌, ◌<◌, ◌≡◌, refl, true, List, arith, length, u64_mod, All}
use ccas.Common.Counts.{count_if-All}
use ccas.Storage.Mem.{MemStore, mem_store}
use ccas.Ccaas.Epoch.{PendingTxn}
use ccas.Ccaas.Epoch.Sorting.{Sorts}
use ccas.Deployment.{start_epochs}
use ccas.Demo.{num_accounts, initial_balance, initial_data, balance_sum}
use ccas.Demo.Epochs.{EpochBank, EpochTurn, open_epoch_bank, run_epoch_turns}
use ccas.Demo.Epochs.Ended.{is_ended, IsCounted, run_epoch_turns-IsCounted, ended-owing}
use ccas.Demo.Epochs.Conservation.{uncounted, epoch_demo-sum}

-- Every transfer that has begun has ended.
abbrev pub AllEnded : {S : Type 0} → EpochBank S → Type 0
AllEnded b = All (λ job. is_ended job ≡ true) b.jobs

-- The counters of transfers that have all ended.
counters-exact :
    {S : Type 0} (b : EpochBank S)
    → AllEnded b
    → IsCounted b
    → b.committed + uncounted b ≡ length b.service.history
    → (b.committed ≡ length b.service.history) × (b.committed + b.aborted ≡ length b.jobs)
counters-exact b all counted told =
    let nothing = ended-owing b.jobs b.service.clients all in
    let every = count_if-All is_ended b.jobs all in (omega arith, omega arith)

-- The demo with epoch certification, in one process.
abbrev pub local_run : (List PendingTxn → List PendingTxn) → List EpochTurn → EpochBank MemStore
local_run sort ts =
    run_epoch_turns mem_store sort (open_epoch_bank (start_epochs (initial_data num_accounts))) ts

-- The demo with epoch certification, once every transfer that has begun has ended, as the demo waits
-- for before it prints: however the calls of the transfers, the epochs and `Stop` have interleaved,
-- the balances add up to what was loaded, the number of commits that is shown is the number of
-- transactions in the history, and the commits and the aborts that are shown are as many as there
-- were transfers. There are fewer steps than numbers.
pub epoch_demo-ended :
    (sort : List PendingTxn → List PendingTxn) (ts : List EpochTurn)
    → Sorts sort
    → length ts + 1 < u64_mod
    → AllEnded (local_run sort ts)
    → let b = local_run sort ts in
      ((balance_sum mem_store b.service.store num_accounts).1 ≡ num_accounts * initial_balance)
      × (b.committed ≡ length b.service.history)
      × (b.committed + b.aborted ≡ length b.jobs)
epoch_demo-ended sort ts sorts room all =
    let opened = open_epoch_bank (start_epochs (initial_data num_accounts)) in
    let (sum, told) = epoch_demo-sum sort ts sorts room in
    let (committed, both) =
      counters-exact (local_run sort ts) all
        (run_epoch_turns-IsCounted mem_store sort opened ts refl) told in
    (sum, committed, both)
