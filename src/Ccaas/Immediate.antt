-- ===== src/Ccaas/Immediate.antt =====
-- pkg/ccaas/immediate.go: `ImmediateCertifier`. The store behind the certifier is the parameter
-- `st`, and its state is passed along; the mutex makes each method one step.
pub mod Laws
use ccas.Common.{
  ℕ, ◌+◌, String, Bool, true, false, Option, none, some, List, [], ◌∷◌, ltb, eqb, inc64,
  if◌then◌else◌,
}
use ccas.Dict
use ccas.Dict.{Dict}
use ccas.Types.{ReadEntry, TxnRequest, CommitRecord, TxnResult}
use ccas.Storage.{Store}
use ccas.Ccaas.{Certifier}
use ccas.Ccaas.Reasons.{abort, stale_read, unseen_read}
use ccas.Ccaas.Versions.{scan_versions, stamp, advance}

-- `type ImmediateCertifier struct`, less the mutex and the store
pub record ImmediateCertifier : Type 0 where
  pub latest_version : Dict ℕ
  pub commit_seq : ℕ

-- The loop over `req.ReadSet`: the result of an early return, or `none` at its end.
unfoldable pub check_reads : Dict ℕ → String → List ReadEntry → Option TxnResult
check_reads latest txn_id [] = none
check_reads latest txn_id (read ∷ reads) =
    let rest = check_reads latest txn_id reads in
    elim (Dict.get latest read.key) [
      | some current ↦
          if eqb current read.version_seen
          then rest
          else some (abort txn_id (stale_read read current))
      | none ↦ if eqb read.version_seen 0 then rest else some (abort txn_id (unseen_read read))
    ]

-- What `SubmitCommit` returns from the error of `ApplyCommit`.
pub reply : String → ℕ → Option String → TxnResult
reply txn_id seq none = record { txn_id = txn_id; committed = true; commit_seq = seq; reason = "" }
reply txn_id seq (some err) = abort txn_id err

module _ {S : Type 0} (st : Store S) where
  -- `NewImmediateCertifier`
  unfoldable pub new_immediate_certifier : S → ImmediateCertifier × S
  new_immediate_certifier s =
      let (s', state) = st.dump_state s in
      let (latest, max_version) = scan_versions state in
      (record { latest_version = latest; commit_seq = max_version }, s')

  -- `ImmediateCertifier.SyncFromStorage`
  unfoldable pub sync_from_storage : ImmediateCertifier → S → ImmediateCertifier × S
  sync_from_storage c s =
      let (s', state) = st.dump_state s in
      let (latest, max_version) = scan_versions state in
      (
        record {
          latest_version = latest;
          commit_seq = if ltb c.commit_seq max_version then max_version else c.commit_seq;
        },
        s',
      )

  -- The rest of `SubmitCommit`, once the reads are valid.
  unfoldable pub commit_writes :
      ImmediateCertifier → S → TxnRequest → (ImmediateCertifier × S) × TxnResult
  unfolding reply
  commit_writes c s req =
      let seq = inc64 c.commit_seq in
      let written : CommitRecord = record {
        commit_seq = seq;
        txn_id = req.txn_id;
        writes = stamp seq req.write_set;
      } in
      let c' : ImmediateCertifier = record {
        latest_version = advance c.latest_version seq req.write_set;
        commit_seq = seq;
      } in
      let (s', err) = st.apply_commit s written in ((c', s'), reply req.txn_id seq err)

  -- `ImmediateCertifier.SubmitCommit`
  unfoldable pub submit_commit :
      ImmediateCertifier → S → TxnRequest → (ImmediateCertifier × S) × TxnResult
  unfolding check_reads
  submit_commit c s req = elim (check_reads c.latest_version req.txn_id req.read_set) [
    | some stale ↦ ((c, s), stale)
    | none ↦ commit_writes c s req
  ]

  -- `*ImmediateCertifier` as a `Certifier`
  abbrev pub immediate_certifier : Certifier ImmediateCertifier S
  immediate_certifier = record {
    submit_commit = submit_commit;
    sync_from_storage = sync_from_storage;
  }
