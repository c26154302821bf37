-- ===== src/Demo/Epochs/Steps.antt =====
-- Each turn of the demo under epoch certification keeps the jobs in step with their transactions.
use ccas.Common.{
  ℕ, ◌%◌, ◌≡◌, refl, inl, inr, Bool, true, false, List, [], ◌∷◌, arith, eqb, get_elem?,
  Option-cases, Bool-cases,
}
use ccas.Common.Pairs.{Paired-get}
use ccas.Storage.{Store}
use ccas.Ccaas.Epoch.{PendingTxn}
use ccas.Ccaas.Epoch.Sorting.{Sorts}
use ccas.Execution
use ccas.Execution.{check_active}
use ccas.Service.{waits_in, pending}
use ccas.Service.Jobs.Working.{ticks-Joined, works-Joined, stops-Joined, drains-Joined}
use ccas.Service.Jobs.Calling.{begins-Joined}
use ccas.Demo.{num_accounts}
use ccas.Demo.Jobs.{JobOk}
use ccas.Demo.Epochs.{
  EpochBank, EpochTurn, starts, goes, epoch_ticks, epoch_works, epoch_stops, epoch_drains,
  start_transfer, resume, epoch_turn, run_epoch_turns,
}
use ccas.Demo.Epochs.Waiting.{transfer_rules}
use ccas.Demo.Epochs.Advancing.{BankOk, advance_transfer-BankOk}

module _ {S : Type 0} (st : Store S) (sort : List PendingTxn → List PendingTxn) where
  resume-BankOk :
      (b : EpochBank S) (i : ℕ) (busy : Bool)
      → waits_in (pending b.service) i ≡ busy
      → BankOk b
      → BankOk (resume st sort b i busy)
  unfolding resume
  resume-BankOk b i true free ok = ok
  resume-BankOk b i false free ok = elim (Option-cases (get_elem? b.jobs i)) [
    | inl e ↦ rw (e, resume) ok
    | inr (job, e) ↦ elim (Option-cases (get_elem? b.service.clients i)) [
      | inl f ↦ rw (e, resume) (rw (f, resume) ok)
      | inr (cl, f) ↦
          let (drawn, at) = Paired-get JobOk b.jobs b.service.clients i ok.jobs_ok e f in
          rw (e, resume)
            (rw (f, resume)
              (advance_transfer-BankOk st sort b i job cl drawn ok e f free job.phase refl at))
    ]
  ]

  start_transfer-BankOk :
      (b : EpochBank S) (x y z : ℕ) → BankOk b → BankOk (start_transfer st sort b x y z)
  unfolding start_transfer Execution.begin check_active
  start_transfer-BankOk b x y z ok = elim (Bool-cases (eqb (y % num_accounts) (x % num_accounts))) [
    | inl same ↦ rw same ok
    | inr differ ↦ rw differ (
        begins-Joined st sort transfer_rules b.committed b.jobs b.service ok _ refl
          ((omega arith, omega arith, λ e. ground arith), ((refl, refl, refl), refl)))
  ]

  epoch_turn-BankOk :
      (b : EpochBank S) (t : EpochTurn) → Sorts sort → BankOk b → BankOk (epoch_turn st sort b t)
  unfolding epoch_turn
  epoch_turn-BankOk b (starts x y z) sorts ok = start_transfer-BankOk b x y z ok
  epoch_turn-BankOk b (goes i) sorts ok = resume-BankOk b i _ refl ok
  epoch_turn-BankOk b epoch_ticks sorts ok =
      ticks-Joined transfer_rules b.committed b.jobs b.service ok st sort sorts
  epoch_turn-BankOk b epoch_works sorts ok =
      works-Joined transfer_rules b.committed b.jobs b.service ok st sort sorts
  epoch_turn-BankOk b epoch_stops sorts ok =
      stops-Joined transfer_rules b.committed b.jobs b.service ok st sort sorts
  epoch_turn-BankOk b epoch_drains sorts ok =
      drains-Joined transfer_rules b.committed b.jobs b.service ok st sort sorts

  -- However the transfers and the epochs interleave, only transfers commit.
  pub run_epoch_turns-BankOk :
      (b : EpochBank S) (ts : List EpochTurn)
      → Sorts sort
      → BankOk b
      → BankOk (run_epoch_turns st sort b ts)
  unfolding run_epoch_turns
  run_epoch_turns-BankOk b [] sorts ok = ok
  run_epoch_turns-BankOk b (t ∷ ts) sorts ok =
      run_epoch_turns-BankOk (epoch_turn st sort b t) ts sorts (epoch_turn-BankOk b t sorts ok)
