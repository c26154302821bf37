-- ===== src/Demo/Epochs/Advancing.antt =====
-- Each call of a transfer under epoch certification keeps the jobs in step with their
-- transactions.
use ccas.Common.{
  ℕ, String, ◌≡◌, refl, inl, inr, false, true, some, List, [], ◌∷◌, arith, leb, get_elem?,
  Bool-cases, set_elem, if_cases, subst,
}
use ccas.Common.Decimal.{atoi}
use ccas.Storage.{Store}
use ccas.Ccaas.Epoch.{PendingTxn}
use ccas.World.{Client, reads}
use ccas.Service.{waits_in, pending}
use ccas.Service.Jobs.{Joined}
use ccas.Service.Jobs.Calling.{
  reads-Joined, writes-Joined, aborts-Joined, counts-Joined, commits-Joined,
}
use ccas.Demo.{Phase, begun, got_src, got_both, debited, credited, waiting, ended, Job, acct}
use ccas.Demo.Jobs.{transfer_reads, IsDrawn, Has, At}
use ccas.Demo.Steps.{read_client-Has, write_client-Has}
use ccas.Demo.Epochs.{EpochBank, calls_on, text_read, choose, count_result, advance_transfer}
use ccas.Demo.Epochs.Waiting.{awaits, transfer_rules}

-- The transfers fit their transactions, and the commits are counted.
abbrev pub BankOk : {S : Type 0} → EpochBank S → Type 0
BankOk b = Joined transfer_rules b.committed b.jobs b.service

module _ {S : Type 0} (st : Store S) (sort : List PendingTxn → List PendingTxn) (b : EpochBank S)
    (i : ℕ) (job : Job) (cl : Client) (drawn : IsDrawn job) (ok : BankOk b)
    (at : get_elem? b.jobs i ≡ some job) (here : get_elem? b.service.clients i ≡ some cl)
    (free : waits_in (pending b.service) i ≡ false) where
  read_turn-BankOk :
      (a : ℕ) (seen : List (String × String)) (phase : Phase)
      → awaits job.phase ≡ false
      → awaits phase ≡ false
      → Has cl seen []
      → cl.txn.write_buffer ≡ []
      → ((cl' : Client)
          → Has cl' ((acct a, text_read st sort b cl a) ∷ seen) []
          → cl'.txn.write_buffer ≡ []
          → At job cl' phase)
      → BankOk (calls_on st sort b i job (reads i (acct a)) phase)
  read_turn-BankOk a seen phase idle idle' has empty k =
      let (has', empty') = read_client-Has st b.service.store cl seen [] (acct a) has empty in
      reads-Joined st sort transfer_rules b.committed b.jobs b.service ok i job cl at here free
        (record job { phase = phase }) (acct a) idle idle' (drawn, k _ has' empty')

  choose-BankOk :
      (sv dv : String)
      → awaits job.phase ≡ false
      → Has cl (transfer_reads job sv dv) []
      → BankOk (choose st sort b i job sv dv)
  unfolding choose
  choose-BankOk sv dv idle has = elim (Bool-cases (leb job.amount (atoi sv))) [
    | inl enough ↦ rw enough (
        writes-Joined st sort transfer_rules b.committed b.jobs b.service ok i job cl at here free
          (record job { phase = debited sv dv }) (acct job.src) _ idle refl
          (
            drawn,
            (write_client-Has cl (transfer_reads job sv dv) [] (acct job.src) _ has, ground arith),
          ))
    | inr short ↦ rw short (
        aborts-Joined st sort transfer_rules b.committed b.jobs b.service ok i job cl at here free
          (record job { phase = ended }) idle refl (drawn, tt))
  ]

  count_result-BankOk : awaits job.phase ≡ true → BankOk (count_result st sort b i job cl)
  unfolding count_result
  count_result-BankOk had =
      let counted =
        counts-Joined st sort transfer_rules b.committed b.jobs b.service ok i job cl at here free
          (record job { phase = ended }) had refl (drawn, tt) in
      if_cases BankOk cl.txn.committed (λ won. rw won at counted)
        (λ lost.
          subst
            (λ n.
              Joined transfer_rules n (set_elem b.jobs i (record job { phase = ended })) b.service)
            (rw lost (omega arith)) counted)

  pub advance_transfer-BankOk :
      (phase : Phase)
      → job.phase ≡ phase
      → At job cl phase
      → BankOk (advance_transfer st sort b i job cl phase)
  unfolding advance_transfer
  advance_transfer-BankOk begun e (has, empty) =
      read_turn-BankOk job.src [] (got_src _) (rw e refl) refl has empty (λ cl' h e. (h, e))
  advance_transfer-BankOk (got_src sv) e (has, empty) =
      read_turn-BankOk job.dst _ (got_both sv _) (rw e refl) refl has empty (λ cl' h e. h)
  advance_transfer-BankOk (got_both sv dv) e has = choose-BankOk sv dv (rw e refl) has
  advance_transfer-BankOk (debited sv dv) e (has, covered) =
      writes-Joined st sort transfer_rules b.committed b.jobs b.service ok i job cl at here free
        (record job { phase = credited sv dv }) (acct job.dst) _ (rw e refl) refl
        (drawn, (write_client-Has cl (transfer_reads job sv dv) _ (acct job.dst) _ has, covered))
  advance_transfer-BankOk (credited sv dv) e ((active, seen, ws), covered) =
      commits-Joined st sort transfer_rules b.committed b.jobs b.service ok i job cl at here free
        (record job { phase = waiting sv dv }) (rw e refl) refl active (drawn, (seen, ws, covered))
  advance_transfer-BankOk (waiting sv dv) e at = count_result-BankOk (rw e refl)
  advance_transfer-BankOk ended e at = ok
