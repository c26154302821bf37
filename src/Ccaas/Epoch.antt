-- ===== src/Ccaas/Epoch.antt =====
-- pkg/ccaas/epoch.go: `EpochCertifier`. The store behind the certifier is the parameter `st`; what
-- runs under `mu` is one step. A result channel is a number, and what is sent on it is returned.
pub mod Sorting
pub mod Certify
pub mod Batch
pub mod Progress
pub mod Syncing
pub mod Panicking
use ccas.Common.{
  ℕ, String, Bool, true, false, Option, none, some, List, [], ◌∷◌, ◌++◌, ◌==◌, ◌&&◌, not, ltb, eqb,
  inc64, if◌then◌else◌,
}
use ccas.Common.Text.{decimal, ◌++◌ as append_text}
use ccas.Dict
use ccas.Dict.{Dict}
use ccas.Types.{ReadEntry, WriteEntry, TxnRequest, CommitWrite, CommitRecord, TxnResult}
use ccas.Storage.{Store}
use ccas.Ccaas.{Certifier}
use ccas.Ccaas.Reasons.{abort, stale_read, unseen_read}
use ccas.Ccaas.Versions.{scan_versions}

-- `type pendingTxn struct`
pub record PendingTxn : Type 0 where
  pub req : TxnRequest
  pub result_ch : ℕ

-- `type EpochCertifier struct`, less the mutexes, the store, the timer and the stop channels
pub record EpochCertifier : Type 0 where
  pub latest_version : Dict ℕ
  pub commit_seq : ℕ
  pub current_batch : List PendingTxn

-- The first loop of `certifyTxn`: the result of an early return, or `none` at its end.
unfoldable pub check_reads : Dict ℕ → String → List ReadEntry → Option TxnResult
check_reads latest txn_id [] = none
check_reads latest txn_id (read ∷ reads) =
    let rest = check_reads latest txn_id reads in
    elim (Dict.get latest read.key) [
      | some current ↦
          if not (eqb current read.version_seen)
          then some (abort txn_id (stale_read read current))
          else rest
      | none ↦
          if not (eqb read.version_seen 0) then some (abort txn_id (unseen_read read)) else rest
    ]

pub claimed_by : String → String → String
claimed_by key winner =
    append_text "write-write conflict on key "
      (append_text key (append_text ": claimed by " winner))

-- The second loop of `certifyTxn`, over the keys that this epoch has already written.
unfoldable pub check_claims : Dict String → String → List WriteEntry → Option TxnResult
check_claims claimed txn_id [] = none
check_claims claimed txn_id (write ∷ ws) =
    let rest = check_claims claimed txn_id ws in
    elim (Dict.get claimed write.key) [
      | some winner ↦
          if not (winner == txn_id) then some (abort txn_id (claimed_by write.key winner)) else rest
      | none ↦ rest
    ]

-- The loop `claimedKeys[write.Key] = req.TxnID`.
unfoldable pub claim : Dict String → String → List WriteEntry → Dict String
claim claimed txn_id [] = claimed
claim claimed txn_id (write ∷ ws) = claim (Dict.set claimed write.key txn_id) txn_id ws

-- The loop that fills `record.Writes` and moves `latestVersion`.
unfoldable pub stamp_writes :
    ℕ → List WriteEntry → Dict ℕ → List CommitWrite → List CommitWrite × Dict ℕ
stamp_writes seq [] latest out = (out, latest)
stamp_writes seq (write ∷ ws) latest out =
    stamp_writes seq ws (Dict.set latest write.key seq)
      (out ++ record { key = write.key; value = write.value; new_version = seq } ∷ [])

-- What `certifyTxn` works on: the certifier and the map `claimedKeys` of the epoch.
pub record EpochState : Type 0 where
  pub cert : EpochCertifier
  pub open cert use *
  pub claimed_keys : Dict String

module _ {S : Type 0} (st : Store S) where
  -- `NewEpochCertifier`
  unfoldable pub new_epoch_certifier : S → EpochCertifier × S
  new_epoch_certifier s =
      let (s', state) = st.dump_state s in
      let (latest, max_version) = scan_versions state in
      (record { latest_version = latest; commit_seq = max_version; current_batch = [] }, s')

  -- `EpochCertifier.SyncFromStorage`
  unfoldable pub sync_from_storage : EpochCertifier → S → EpochCertifier × S
  sync_from_storage c s =
      let (s', state) = st.dump_state s in
      let (latest, max_version) = scan_versions state in
      (
        record c {
          latest_version = latest;
          commit_seq = if ltb c.commit_seq max_version then max_version else c.commit_seq;
        },
        s',
      )

  -- The last part of `certifyTxn`. The error of `ApplyCommit` is dropped.
  unfoldable pub commit_writes : EpochState → S → TxnRequest → (EpochState × S) × TxnResult
  commit_writes e s req =
      let seq = inc64 e.commit_seq in
      let claimed = claim e.claimed_keys req.txn_id req.write_set in
      let (writes, latest) = stamp_writes seq req.write_set e.latest_version [] in
      let written : CommitRecord = record {
        commit_seq = seq;
        txn_id = req.txn_id;
        writes = writes;
      } in
      let (s', _) = st.apply_commit s written in
      (
        (
          record {
            cert = record e.cert { latest_version = latest; commit_seq = seq };
            claimed_keys = claimed;
          },
          s',
        ),
        record { txn_id = req.txn_id; committed = true; commit_seq = seq; reason = "" },
      )

  -- `EpochCertifier.certifyTxn`
  unfoldable pub certify_txn : EpochState → S → TxnRequest → (EpochState × S) × TxnResult
  unfolding check_reads check_claims commit_writes
  certify_txn e s req = elim (check_reads e.latest_version req.txn_id req.read_set) [
    | some stale ↦ ((e, s), stale)
    | none ↦ elim (check_claims e.claimed_keys req.txn_id req.write_set) [
      | some conflict ↦ ((e, s), conflict)
      | none ↦ commit_writes e s req
    ]
  ]

  -- The loop of `processEpoch`: what is sent, and on which channels.
  unfoldable pub process_batch :
      EpochState → S → List PendingTxn → (EpochState × S) × List (ℕ × TxnResult)
  process_batch e s [] = ((e, s), [])
  process_batch e s (p ∷ ps) =
      let ((e', s'), result) = certify_txn e s p.req in
      let (es, sent) = process_batch e' s' ps in (es, (p.result_ch, result) ∷ sent)

  -- `EpochCertifier.processEpoch`; `sort` is what `sort.Slice` makes of the batch.
  unfoldable pub process_epoch :
      (List PendingTxn → List PendingTxn)
      → EpochCertifier
      → S
      → (EpochCertifier × S) × List (ℕ × TxnResult)
  process_epoch sort c s =
      let c' = record c { current_batch = [] } in
      elim c.current_batch [
        | [] ↦ ((c', s), [])
        | p ∷ ps ↦
            let ((e, s'), sent) =
              process_batch (record { cert = c'; claimed_keys = [] }) s (sort (p ∷ ps)) in
            ((e.cert, s'), sent)
      ]

-- The part of `EpochCertifier.SubmitCommit` that comes before the wait for the result.
unfoldable pub enqueue : EpochCertifier → PendingTxn → EpochCertifier
enqueue c p = record c { current_batch = c.current_batch ++ p ∷ [] }
