-- ===== src/Demo/Epochs.antt =====
-- cmd/demo/main.go: `runDemo` under epoch certification, beside the goroutine of the certifier. A
-- transfer that has called `engine.Commit` waits there until an epoch answers it.
pub mod Waiting
pub mod Advancing
pub mod Steps
pub mod Ended
pub mod Conservation
pub mod Finished
use ccas.Common.{
  ℕ, ◌+◌, ◌-◌, ◌*◌, ◌%◌, String, Bool, true, false, none, some, List, [], ◌∷◌, ◌++◌, eqb, leb,
  if◌then◌else◌, get_elem?, set_elem,
}
use ccas.Common.Text.{decimal}
use ccas.Common.Decimal.{atoi}
use ccas.Dict.{Dict}
use ccas.Storage.{Store}
use ccas.Storage.Mem as Mem
use ccas.Storage.Mem.{MemStore, new_mem_store, mem_store}
use ccas.Ccaas.Epoch
use ccas.Ccaas.Epoch.{PendingTxn}
use ccas.Execution
use ccas.World.{Client, Event, begins, reads, writes, commits, aborts}
use ccas.Service.{Loop, Service, Move, call, ticks, stops, drains, works, waits_in, pending, move}
use ccas.Demo.{
  Phase, begun, got_src, got_both, debited, credited, waiting, ended, Job, acct, num_accounts,
  max_transfer,
}

-- Job `i` runs the transaction of client `i`.
pub record EpochBank (S : Type 0) : Type 0 where
  pub service : Service S
  pub jobs : List Job
  pub committed : ℕ
  pub aborted : ℕ

-- A transfer begins or takes its next step; or the goroutine, its ticker or `Stop` does.
pub data EpochTurn : Type 0 where
  starts : ℕ → ℕ → ℕ → EpochTurn
  goes : ℕ → EpochTurn
  epoch_ticks : EpochTurn
  epoch_works : EpochTurn
  epoch_stops : EpochTurn
  epoch_drains : EpochTurn

abbrev pub open_epoch_bank : {S : Type 0} → Service S → EpochBank S
open_epoch_bank w = record { service = w; jobs = []; committed = 0; aborted = 0 }

module _ {S : Type 0} (st : Store S) (sort : List PendingTxn → List PendingTxn) where
  unfoldable pub start_transfer : EpochBank S → ℕ → ℕ → ℕ → EpochBank S
  start_transfer b x y z =
      let src = x % num_accounts in
      let dst = y % num_accounts in
      if eqb dst src then b else record b {
        service = move st sort b.service (call begins);
        jobs =
            b.jobs
            ++ record { src = src; dst = dst; amount = z % max_transfer + 1; phase = begun } ∷ [];
      }

  -- The service after a call, and the job's new phase.
  abbrev pub calls_on : EpochBank S → ℕ → Job → Event → Phase → EpochBank S
  calls_on b i job e phase = record b {
    service = move st sort b.service (call e);
    jobs = set_elem b.jobs i (record job { phase = phase });
  }

  -- The text that `engine.Read` returns.
  abbrev pub text_read : EpochBank S → Client → ℕ → String
  text_read b cl a = (Execution.read st b.service.store cl.txn (acct a)).1.0

  -- `if srcBal >= amount`: the first write, or the abort.
  unfoldable pub choose : EpochBank S → ℕ → Job → String → String → EpochBank S
  choose b i job sv dv =
      if leb job.amount (atoi sv)
      then calls_on b i job (writes i (acct job.src) (decimal (atoi sv - job.amount)))
          (debited sv dv)
      else (record (calls_on b i job (aborts i) ended) { aborted = b.aborted + 1 })

  -- `engine.Commit` has returned: the counters.
  unfoldable pub count_result : EpochBank S → ℕ → Job → Client → EpochBank S
  count_result b i job cl =
      let b' = record b { jobs = set_elem b.jobs i (record job { phase = ended }) } in
      if cl.txn.committed
      then record b' { committed = b.committed + 1 }
      else record b' { aborted = b.aborted + 1 }

  unfoldable pub advance_transfer : EpochBank S → ℕ → Job → Client → Phase → EpochBank S
  unfolding choose count_result
  advance_transfer b i job cl begun =
      calls_on b i job (reads i (acct job.src)) (got_src (text_read b cl job.src))
  advance_transfer b i job cl (got_src sv) =
      calls_on b i job (reads i (acct job.dst)) (got_both sv (text_read b cl job.dst))
  advance_transfer b i job cl (got_both sv dv) = choose b i job sv dv
  advance_transfer b i job cl (debited sv dv) =
      calls_on b i job (writes i (acct job.dst) (decimal (atoi dv + job.amount))) (credited sv dv)
  advance_transfer b i job cl (credited sv dv) = calls_on b i job (commits i) (waiting sv dv)
  advance_transfer b i job cl (waiting sv dv) = count_result b i job cl
  advance_transfer b i job cl ended = b

  -- A transfer whose commit has no answer yet stays where it is.
  unfoldable pub resume : EpochBank S → ℕ → Bool → EpochBank S
  unfolding advance_transfer
  resume b i true = b
  resume b i false = elim (get_elem? b.jobs i) [
    | none ↦ b
    | some job ↦ elim (get_elem? b.service.clients i) [
      | none ↦ b
      | some cl ↦ advance_transfer b i job cl job.phase
    ]
  ]

  unfoldable pub epoch_turn : EpochBank S → EpochTurn → EpochBank S
  unfolding start_transfer resume waits_in
  epoch_turn b (starts x y z) = start_transfer b x y z
  epoch_turn b (goes i) = resume b i (waits_in (pending b.service) i)
  epoch_turn b epoch_ticks = record b { service = move st sort b.service ticks }
  epoch_turn b epoch_works = record b { service = move st sort b.service works }
  epoch_turn b epoch_stops = record b { service = move st sort b.service stops }
  epoch_turn b epoch_drains = record b { service = move st sort b.service drains }

  unfoldable pub run_epoch_turns : EpochBank S → List EpochTurn → EpochBank S
  run_epoch_turns b [] = b
  run_epoch_turns b (t ∷ ts) = run_epoch_turns (epoch_turn b t) ts
