-- ===== src/Demo/Epochs/Ended.antt =====
-- The two counters of the demo against its transfers, under epoch certification.
use ccas.Common.{
  ℕ, ◌+◌, ◌≡◌, refl, sym, ◌∙◌, inl, inr, Bool, true, false, some, List, [], ◌∷◌, arith, leb, All,
  if_both, get_elem?, set_elem, Option-cases,
}
use ccas.Common.Counts.{count_if, count_if-append, count_if-set_elem}
use ccas.Common.Decimal.{atoi}
use ccas.Storage.{Store}
use ccas.Ccaas.Epoch.{PendingTxn}
use ccas.World.{Client}
use ccas.Demo.{Phase, begun, got_src, got_both, debited, credited, waiting, ended, Job}
use ccas.Demo.Epochs.{
  EpochBank, EpochTurn, starts, goes, epoch_ticks, epoch_works, epoch_stops, epoch_drains,
  start_transfer, choose, count_result, advance_transfer, resume, epoch_turn, run_epoch_turns,
}
use ccas.Service.Jobs.{owing}
use ccas.Demo.Epochs.Waiting.{awaits, transfer_rules}

abbrev has_ended : Phase → Bool
has_ended ended = true
has_ended _ = false

abbrev pub is_ended : Job → Bool
is_ended job = has_ended job.phase

-- Each transfer that has ended has been counted once.
abbrev pub IsCounted : {S : Type 0} → EpochBank S → Type 0
IsCounted b = count_if is_ended b.jobs ≡ b.committed + b.aborted

module _ {S : Type 0} (st : Store S) (sort : List PendingTxn → List PendingTxn) where
  module _ (b : EpochBank S) (i : ℕ) (job : Job) (here : get_elem? b.jobs i ≡ some job)
      (ok : IsCounted b) where
    -- The transfers when this one has gone on to another step.
    abbrev gone_on : Phase → ℕ
    gone_on phase = count_if is_ended (set_elem b.jobs i (record job { phase = phase }))

    gone_on-going :
        (phase : Phase)
        → has_ended job.phase ≡ false
        → has_ended phase ≡ false
        → gone_on phase ≡ b.committed + b.aborted
    gone_on-going phase going still =
        let moved = count_if-set_elem is_ended b.jobs i job (record job { phase = phase }) here in
        ground arith

    gone_on-ended : has_ended job.phase ≡ false → gone_on ended ≡ b.committed + b.aborted + 1
    gone_on-ended going =
        let moved = count_if-set_elem is_ended b.jobs i job (record job { phase = ended }) here in
        ground arith

    advance_transfer-IsCounted :
        (cl : Client) (phase : Phase)
        → phase ≡ job.phase
        → IsCounted (advance_transfer st sort b i job cl phase)
    unfolding advance_transfer choose count_result
    advance_transfer-IsCounted cl begun e = gone_on-going _ (rw (sym e) refl) refl
    advance_transfer-IsCounted cl (got_src sv) e = gone_on-going _ (rw (sym e) refl) refl
    advance_transfer-IsCounted cl (got_both sv dv) e =
        let going : has_ended job.phase ≡ false = rw (sym e) refl in
        if_both IsCounted (leb job.amount (atoi sv)) (gone_on-going _ going refl)
          (omega (arith, gone_on-ended going))
    advance_transfer-IsCounted cl (debited sv dv) e = gone_on-going _ (rw (sym e) refl) refl
    advance_transfer-IsCounted cl (credited sv dv) e = gone_on-going _ (rw (sym e) refl) refl
    advance_transfer-IsCounted cl (waiting sv dv) e =
        let going : has_ended job.phase ≡ false = rw (sym e) refl in
        if_both IsCounted cl.txn.committed (omega (arith, gone_on-ended going))
          (omega (arith, gone_on-ended going))
    advance_transfer-IsCounted cl ended e = ok

  resume-IsCounted :
      (b : EpochBank S) (i : ℕ) (busy : Bool) → IsCounted b → IsCounted (resume st sort b i busy)
  unfolding resume
  resume-IsCounted b i true ok = ok
  resume-IsCounted b i false ok = elim (Option-cases (get_elem? b.jobs i)) [
    | inl e ↦ rw (e, resume) ok
    | inr (job, e) ↦ elim (Option-cases (get_elem? b.service.clients i)) [
      | inl f ↦ rw (e, resume) (rw (f, resume) ok)
      | inr (cl, f) ↦
          rw (e, resume)
            (rw (f, resume) (advance_transfer-IsCounted b i job e ok cl job.phase refl))
    ]
  ]

  epoch_turn-IsCounted :
      (b : EpochBank S) (t : EpochTurn) → IsCounted b → IsCounted (epoch_turn st sort b t)
  unfolding epoch_turn start_transfer
  epoch_turn-IsCounted b (starts x y z) ok =
      if_both IsCounted _ ok (count_if-append is_ended b.jobs _ ∙ omega (arith, ok))
  epoch_turn-IsCounted b (goes i) ok = resume-IsCounted b i _ ok
  epoch_turn-IsCounted b epoch_ticks ok = ok
  epoch_turn-IsCounted b epoch_works ok = ok
  epoch_turn-IsCounted b epoch_stops ok = ok
  epoch_turn-IsCounted b epoch_drains ok = ok

  pub run_epoch_turns-IsCounted :
      (b : EpochBank S) (ts : List EpochTurn)
      → IsCounted b
      → IsCounted (run_epoch_turns st sort b ts)
  unfolding run_epoch_turns
  run_epoch_turns-IsCounted b [] ok = ok
  run_epoch_turns-IsCounted b (t ∷ ts) ok =
      run_epoch_turns-IsCounted (epoch_turn st sort b t) ts (epoch_turn-IsCounted b t ok)

ended-awaits : (phase : Phase) → has_ended phase ≡ true → awaits phase ≡ false
ended-awaits begun h = refl
ended-awaits (got_src sv) h = refl
ended-awaits (got_both sv dv) h = refl
ended-awaits (debited sv dv) h = refl
ended-awaits (credited sv dv) h = refl
ended-awaits (waiting sv dv) h = absurd (cc)
ended-awaits ended h = refl

-- A transfer that has ended owes nothing.
pub ended-owing :
    (js : List Job) (cs : List Client)
    → All (λ job. is_ended job ≡ true) js
    → owing transfer_rules js cs ≡ 0
ended-owing [] cs h = refl
ended-owing (j ∷ js) [] h = refl
ended-owing (j ∷ js) (c ∷ cs) h =
    rw (ended-awaits j.phase h.0) (omega (arith, ended-owing js cs h.1))
