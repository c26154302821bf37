-- ===== src/Ccaas/Epoch/Panicking/Calm.antt =====
-- Over a store that never panics.
use ccas.Common.{◌≡◌, refl, inl, inr, none, List, [], ◌∷◌, Option-cases}
use ccas.Types.{TxnRequest, CommitRecord}
use ccas.Storage.{Store}
use ccas.Ccaas.Epoch.{
  PendingTxn, EpochCertifier, EpochState, check_reads, check_claims, certify_txn, process_batch,
  process_epoch,
}
use ccas.Ccaas.Epoch.Panicking.{
  Panics, returns, commit_or_panic, certify_or_panic, batch_or_panic, with_recovery, epoch_or_panic,
}

module _ {S : Type 0} (st : Store S) (may : Panics S)
    (calm : (s : S) (r : CommitRecord) → may s r ≡ none) where
  certify_or_panic-calm :
      (e : EpochState) (s : S) (req : TxnRequest)
      → let r = certify_txn st e s req in certify_or_panic st may e s req ≡ returns r.0 r.1
  unfolding certify_or_panic certify_txn commit_or_panic
  certify_or_panic-calm e s req =
      elim (Option-cases (check_reads e.latest_version req.txn_id req.read_set)) [
        | inr (res, stale) ↦ rw (stale, certify_or_panic, certify_txn) refl
        | inl valid ↦ elim (Option-cases (check_claims e.claimed_keys req.txn_id req.write_set)) [
          | inr (res, taken) ↦
              rw (valid, certify_or_panic, certify_txn)
                (rw (taken, certify_or_panic, certify_txn) refl)
          | inl free ↦
              rw (valid, certify_or_panic, certify_txn)
                (rw (free, certify_or_panic, certify_txn) (rw (calm s _, commit_or_panic) refl))
        ]
      ]

  batch_or_panic-calm :
      (e : EpochState) (s : S) (ps : List PendingTxn)
      → let d = process_batch st e s ps in batch_or_panic st may e s ps ≡ (d.0, (d.1, none))
  unfolding batch_or_panic process_batch
  batch_or_panic-calm e s [] = refl
  batch_or_panic-calm e s (p ∷ ps) =
      let ((e', s'), _) = certify_txn st e s p.req in
      rw (certify_or_panic-calm e s p.req, batch_or_panic) (rw (batch_or_panic-calm e' s' ps) refl)

  -- If the store never panics, an epoch does what it does without the deferred function.
  pub epoch_or_panic-calm :
      (sort : List PendingTxn → List PendingTxn) (c : EpochCertifier) (s : S)
      → epoch_or_panic st may sort c s ≡ process_epoch st sort c s
  unfolding epoch_or_panic process_epoch with_recovery
  epoch_or_panic-calm sort c s = same c.current_batch refl
    where
      same :
          (b : List PendingTxn)
          → c.current_batch ≡ b
          → epoch_or_panic st may sort c s ≡ process_epoch st sort c s
      same [] e = rw (e, epoch_or_panic, process_epoch) refl
      same (p ∷ ps) e =
          rw (e, epoch_or_panic, process_epoch)
            (rw
              (batch_or_panic-calm
                (record { cert = record c { current_batch = [] }; claimed_keys = [] }) s
                (sort (p ∷ ps)))
              refl)
