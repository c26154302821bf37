-- ===== src/Demo/Jobs.antt =====
-- Every transaction that commits in the demo is a transfer.
use ccas.Common.Pairs.{Paired}
use ccas.Common.{◌+◌, ◌-◌, ◌≤◌, ◌<◌, String, ◌≡◌, ◌≢◌, none, List, [], ◌∷◌}
use ccas.Common.Text.{decimal}
use ccas.Common.Decimal.{atoi}
use ccas.Types.{WriteEntry}
use ccas.Execution.{check_active}
use ccas.World.{Client, Done}
use ccas.Demo.{
  Phase, begun, got_src, got_both, debited, credited, waiting, ended, Job, acct, num_accounts,
}

-- The reads and writes of a transfer, last read first.
abbrev pub transfer_reads : Job → String → String → List (String × String)
transfer_reads job sv dv = (acct job.dst, dv) ∷ (acct job.src, sv) ∷ []

abbrev pub debit : Job → String → WriteEntry
debit job sv = record { key = acct job.src; value = decimal (atoi sv - job.amount) }

abbrev pub credit : Job → String → WriteEntry
credit job dv = record { key = acct job.dst; value = decimal (atoi dv + job.amount) }

-- Two different accounts.
abbrev pub IsDrawn : Job → Type 0
IsDrawn job = (job.src < num_accounts) × (job.dst < num_accounts) × (job.dst ≢ job.src)

pub record IsTransfer (d : Done) : Type 0 where
  pub job : Job
  pub src_text : String
  pub dst_text : String
  pub drawn : IsDrawn job
  pub covered : job.amount ≤ atoi src_text
  pub did_read : d.reads ≡ transfer_reads job src_text dst_text
  pub did_write : d.writes ≡ debit job src_text ∷ credit job dst_text ∷ []

-- An active transaction with these reads and writes.
abbrev pub Has : Client → List (String × String) → List WriteEntry → Type 0
Has cl seen ws = (check_active cl.txn ≡ none) × (cl.seen ≡ seen) × (cl.txn.write_set ≡ ws)

abbrev pub At : Job → Client → Phase → Type 0
At job cl begun = Has cl [] [] × (cl.txn.write_buffer ≡ [])
At job cl (got_src sv) = Has cl ((acct job.src, sv) ∷ []) [] × (cl.txn.write_buffer ≡ [])
At job cl (got_both sv dv) = Has cl (transfer_reads job sv dv) []
At job cl (debited sv dv) =
    Has cl (transfer_reads job sv dv) (debit job sv ∷ []) × (job.amount ≤ atoi sv)
At job cl (credited sv dv) =
    Has cl (transfer_reads job sv dv) (debit job sv ∷ credit job dv ∷ []) × (job.amount ≤ atoi sv)
At job cl (waiting sv dv) =
    (cl.seen ≡ transfer_reads job sv dv)
    × (cl.txn.write_set ≡ debit job sv ∷ credit job dv ∷ [])
    × (job.amount ≤ atoi sv)
At job cl ended = Unit {0}

abbrev pub JobOk : Job → Client → Type 0
JobOk job cl = IsDrawn job × At job cl job.phase

-- Each job with its client.
abbrev pub JobsOk : List Job → List Client → Type 0
JobsOk = Paired JobOk
