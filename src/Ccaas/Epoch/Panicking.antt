-- ===== src/Ccaas/Epoch/Panicking.antt =====
-- pkg/ccaas/epoch.go: the deferred function of `processEpoch`, which answers the batch when
-- something under it panics. The panic is one of `ApplyCommit`, the only call that leaves the
-- package; whether a call panics is a parameter.
pub mod Received
pub mod Loop
pub mod Answers
pub mod Calm
pub mod Stale
pub mod Wedged
use ccas.Common.{ℕ, String, Option, none, some, List, [], ◌∷◌, ◌++◌, map, eqb, inc64, if◌then◌else◌}
use ccas.Common.Text
use ccas.Types.{TxnRequest, CommitRecord, TxnResult}
use ccas.Storage.{Store}
use ccas.Ccaas.Reasons.{abort}
use ccas.Ccaas.Epoch.{
  PendingTxn, EpochCertifier, EpochState, check_reads, check_claims, claim, stamp_writes,
  commit_writes,
}

-- Whether `ApplyCommit` panics on a record, and then the store that it leaves and the panic's text.
abbrev pub Panics : Type 0 → Type 0
Panics S = S → CommitRecord → Option (S × String)

-- How a call ends, and what it leaves.
pub data Outcome (A R : Type 0) : Type 0 where
  returns : A → R → Outcome A R
  panics : A → String → Outcome A R

-- What the deferred function sends, if there is room: an abort for each transaction of the batch.
unfoldable pub recovered : String → List PendingTxn → List (ℕ × TxnResult)
recovered text batch =
    map (λ p. (p.result_ch, abort p.req.txn_id (Text.◌++◌ "epoch panic: " text))) batch

-- A channel has room for one result, and `SubmitCommit` takes one: the first that is sent. A later
-- one finds the channel full, or stays in it.
unfoldable pub received : ℕ → List (ℕ × TxnResult) → Option TxnResult
received ch [] = none
received ch ((c, result) ∷ sent) = if eqb c ch then some result else received ch sent

-- What the loop and then the deferred function have sent.
unfoldable pub with_recovery :
    List PendingTxn → List (ℕ × TxnResult) × Option String → List (ℕ × TxnResult)
unfolding recovered
with_recovery batch (sent, none) = sent
with_recovery batch (sent, some text) = sent ++ recovered text batch

module _ {S : Type 0} (st : Store S) (may : Panics S) where
  -- The last part of `certifyTxn`, up to a panic of `ApplyCommit`.
  unfoldable pub commit_or_panic : EpochState → S → TxnRequest → Outcome (EpochState × S) TxnResult
  unfolding commit_writes
  commit_or_panic e s req =
      let seq = inc64 e.commit_seq in
      let claimed = claim e.claimed_keys req.txn_id req.write_set in
      let (writes, latest) = stamp_writes seq req.write_set e.latest_version [] in
      let written : CommitRecord = record {
        commit_seq = seq;
        txn_id = req.txn_id;
        writes = writes;
      } in
      elim (may s written) [
        | none ↦ let (es, result) = commit_writes st e s req in returns es result
        | some (s', text) ↦
            panics
              (
                record {
                  cert = record e.cert { latest_version = latest; commit_seq = seq };
                  claimed_keys = claimed;
                },
                s',
              )
              text
      ]

  -- `EpochCertifier.certifyTxn`
  unfoldable pub certify_or_panic : EpochState → S → TxnRequest → Outcome (EpochState × S) TxnResult
  unfolding check_reads check_claims commit_or_panic
  certify_or_panic e s req = elim (check_reads e.latest_version req.txn_id req.read_set) [
    | some stale ↦ returns (e, s) stale
    | none ↦ elim (check_claims e.claimed_keys req.txn_id req.write_set) [
      | some conflict ↦ returns (e, s) conflict
      | none ↦ commit_or_panic e s req
    ]
  ]

  -- The loop of `processEpoch`: what is left, what is sent, and the panic that ends it.
  unfoldable pub batch_or_panic :
      EpochState → S → List PendingTxn → (EpochState × S) × (List (ℕ × TxnResult) × Option String)
  batch_or_panic e s [] = ((e, s), ([], none))
  batch_or_panic e s (p ∷ ps) = elim (certify_or_panic e s p.req) [
    | panics es text ↦ (es, ([], some text))
    | returns es result ↦
        let (after, (sent, panic)) = batch_or_panic es.0 es.1 ps in
        (after, ((p.result_ch, result) ∷ sent, panic))
  ]

  -- `EpochCertifier.processEpoch`
  unfoldable pub epoch_or_panic :
      (List PendingTxn → List PendingTxn)
      → EpochCertifier
      → S
      → (EpochCertifier × S) × List (ℕ × TxnResult)
  unfolding with_recovery
  epoch_or_panic sort c s =
      let c' = record c { current_batch = [] } in
      elim c.current_batch [
        | [] ↦ ((c', s), [])
        | p ∷ ps ↦
            let batch = sort (p ∷ ps) in
            let ((e, s'), ended) =
              batch_or_panic (record { cert = c'; claimed_keys = [] }) s batch in
            ((e.cert, s'), with_recovery batch ended)
      ]
