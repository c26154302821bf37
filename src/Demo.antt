-- ===== src/Demo.antt =====
-- cmd/demo/main.go: the bank transfer demo. Clients move random amounts between accounts, each
-- transfer in a transaction; at the end the balances are added up. One turn is one call of the
-- engine by one transfer, so a list of turns is an interleaving.
pub mod Jobs
pub mod Steps
pub mod Sums
pub mod Calls
pub mod Conservation
pub mod Epochs
pub mod Printing
use ccas.Common.{
  ℕ, zero, suc, ◌+◌, ◌-◌, ◌*◌, ◌%◌, String, Bool, true, false, Option, none, some, List, [], ◌∷◌,
  ◌++◌, eqb, leb, if◌then◌else◌, get_elem?, set_elem,
}
use ccas.Common.Text
use ccas.Common.Text.{decimal}
use ccas.Common.Decimal.{atoi}
use ccas.Dict
use ccas.Dict.{Dict}
use ccas.Storage.{Store}
use ccas.Ccaas.{Certifier}
use ccas.Execution
use ccas.World.{Client, World, Event, begins, reads, writes, commits, aborts, step}

abbrev pub num_accounts : ℕ
num_accounts = 10

abbrev pub initial_balance : ℕ
initial_balance = 1000

abbrev pub max_transfer : ℕ
max_transfer = 100

-- `fmt.Sprintf("acct-%d", i)`
unfoldable pub acct : ℕ → String
acct i = Text.◌++◌ "acct-" (decimal i)

-- The loop that fills `data`, over the first `n` accounts.
unfoldable pub initial_data : ℕ → Dict String
initial_data zero = []
initial_data (suc n) = Dict.set (initial_data n) (acct n) (decimal initial_balance)

-- How far a transfer has come, with the texts that it has read. Under epoch certification it waits
-- for the result of its commit.
pub data Phase : Type 0 where
  begun : Phase
  got_src : String → Phase
  got_both : String → String → Phase
  debited : String → String → Phase
  credited : String → String → Phase
  waiting : String → String → Phase
  ended : Phase

pub record Job : Type 0 where
  pub src : ℕ
  pub dst : ℕ
  pub amount : ℕ
  pub phase : Phase

-- Job `i` runs the transaction of client `i`.
pub record Bank (C S : Type 0) : Type 0 where
  pub world : World C S
  pub jobs : List Job
  pub committed : ℕ
  pub aborted : ℕ

-- A transfer begins, with what the generator has drawn for it, or takes its next step.
pub data Turn : Type 0 where
  starts : ℕ → ℕ → ℕ → Turn
  goes : ℕ → Turn

-- The transfers begin with an empty count.
abbrev pub open_bank : {C S : Type 0} → World C S → Bank C S
open_bank w = record { world = w; jobs = []; committed = 0; aborted = 0 }

module _ {C S : Type 0} (st : Store S) (cert : Certifier C S) where
  -- `rng.Intn(n)` is below `n`. If both accounts are the same, the code draws again.
  unfoldable pub start_job : Bank C S → ℕ → ℕ → ℕ → Bank C S
  start_job b x y z =
      let src = x % num_accounts in
      let dst = y % num_accounts in
      if eqb dst src then b else record b {
        world = step st cert b.world begins;
        jobs =
            b.jobs
            ++ record { src = src; dst = dst; amount = z % max_transfer + 1; phase = begun } ∷ [];
      }

  -- The world after a call, and the job's new phase.
  abbrev pub go_on : Bank C S → ℕ → Job → Event → Phase → Bank C S
  go_on b i job e phase = record b {
    world = step st cert b.world e;
    jobs = set_elem b.jobs i (record job { phase = phase });
  }

  -- The text that `engine.Read` returns.
  abbrev pub read_text : Bank C S → Client → ℕ → String
  read_text b cl a = (Execution.read st b.world.store cl.txn (acct a)).1.0

  -- `if srcBal >= amount`: the first write, or the abort.
  unfoldable pub decide : Bank C S → ℕ → Job → String → String → Bank C S
  decide b i job sv dv =
      if leb job.amount (atoi sv)
      then go_on b i job (writes i (acct job.src) (decimal (atoi sv - job.amount))) (debited sv dv)
      else (record (go_on b i job (aborts i) ended) { aborted = b.aborted + 1 })

  -- `engine.Commit`, and the counters.
  unfoldable pub finish_job : Bank C S → ℕ → Job → Client → Bank C S
  finish_job b i job cl =
      let (result, _) = (Execution.commit cert b.world.cert b.world.store cl.txn).1 in
      let b' = go_on b i job (commits i) ended in
      if result.committed
      then record b' { committed = b.committed + 1 }
      else record b' { aborted = b.aborted + 1 }

  unfoldable pub advance_job : Bank C S → ℕ → Job → Client → Phase → Bank C S
  unfolding decide finish_job
  advance_job b i job cl begun =
      go_on b i job (reads i (acct job.src)) (got_src (read_text b cl job.src))
  advance_job b i job cl (got_src sv) =
      go_on b i job (reads i (acct job.dst)) (got_both sv (read_text b cl job.dst))
  advance_job b i job cl (got_both sv dv) = decide b i job sv dv
  advance_job b i job cl (debited sv dv) =
      go_on b i job (writes i (acct job.dst) (decimal (atoi dv + job.amount))) (credited sv dv)
  advance_job b i job cl (credited sv dv) = finish_job b i job cl
  advance_job b i job cl (waiting sv dv) = b
  advance_job b i job cl ended = b

  unfoldable pub turn : Bank C S → Turn → Bank C S
  unfolding start_job advance_job
  turn b (starts x y z) = start_job b x y z
  turn b (goes i) = elim (get_elem? b.jobs i) [
    | none ↦ b
    | some job ↦ elim (get_elem? b.world.clients i) [
      | none ↦ b
      | some cl ↦ advance_job b i job cl job.phase
    ]
  ]

  unfoldable pub run_turns : Bank C S → List Turn → Bank C S
  run_turns b [] = b
  run_turns b (t ∷ ts) = run_turns (turn b t) ts

module _ {S : Type 0} (st : Store S) where
  -- The loop of `printResults` over the first `n` accounts.
  unfoldable pub balance_sum : S → ℕ → S × ℕ
  balance_sum s zero = (s, 0)
  balance_sum s (suc n) =
      let (s', sum) = balance_sum s n in
      let (s'', r) = st.get s' (acct n) in (s'', sum + atoi r.value)
