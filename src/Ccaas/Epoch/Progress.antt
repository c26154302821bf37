-- ===== src/Ccaas/Epoch/Progress.antt =====
-- The transaction that `processEpoch` takes first has nobody to lose to but earlier epochs.
use ccas.Common.{
  ℕ, ◌+◌, ◌<◌, String, ◌≡◌, refl, sym, ap, subst, inl, inr, List, [], ◌∷◌, All, u64_mod,
}
use ccas.Dict
use ccas.Types.{WriteEntry, TxnResult}
use ccas.Storage.{Store}
use ccas.Storage.Contract.{StoreLaws}
use ccas.Ccaas.Outcome.{commit_result}
use ccas.Ccaas.Versions.{IsCurrent, Coupled}
use ccas.Ccaas.Epoch.{
  PendingTxn, EpochCertifier, EpochState, certify_txn, process_batch, process_epoch,
}
use ccas.Ccaas.Epoch.Certify.{IsUnclaimed, InStep, certify_txn-decides}

-- At the beginning of an epoch no key is claimed.
nothing-IsUnclaimed : (txn_id : String) (ws : List WriteEntry) → All (IsUnclaimed [] txn_id) ws
unfolding Dict.get
nothing-IsUnclaimed txn_id [] = tt
nothing-IsUnclaimed txn_id (w ∷ ws) = (λ winner e. absurd (cc), nothing-IsUnclaimed txn_id ws)

module _ {S : Type 0} (st : Store S) (laws : StoreLaws st) where
  open laws use {table}

  first-commits :
      (e : EpochState) (s : S) (q : PendingTxn)
      → e.claimed_keys ≡ []
      → InStep st laws e s
      → e.commit_seq + 1 < u64_mod
      → All (IsCurrent (table s)) q.req.read_set
      → (certify_txn st e s q.req).1 ≡ commit_result q.req (e.commit_seq + 1)
  first-commits e s q unclaimed in_step room current =
      elim (certify_txn-decides st laws e s q.req in_step room) [
        | inl (_, done, _, _) ↦ done.result
        | inr (inl stale, _, _) ↦ absurd (stale current)
        | inr (inr taken, _, _) ↦ absurd (
            taken (
              subst (λ x. All (IsUnclaimed x q.req.txn_id) q.req.write_set) (sym unclaimed)
                (nothing-IsUnclaimed q.req.txn_id q.req.write_set)))
      ]

  -- Every epoch whose first transaction is not outdated makes progress: of a batch that is not
  -- empty, the transaction that comes first in the order of `sort.Slice` is answered first, and it
  -- commits under the next number, whatever the others have read or written, if the versions that it
  -- read are still those in the store. The certifier is in step with the store, and its counter is
  -- below the last uint64.
  pub process_epoch-first_commits :
      (sort : List PendingTxn → List PendingTxn) (c : EpochCertifier) (s : S) (p q : PendingTxn)
      (ps qs : List PendingTxn)
      → c.current_batch ≡ p ∷ ps
      → sort (p ∷ ps) ≡ q ∷ qs
      → Coupled c.latest_version c.commit_seq (table s)
      → c.commit_seq + 1 < u64_mod
      → All (IsCurrent (table s)) q.req.read_set
      → (rest : List (ℕ × TxnResult)) × ((process_epoch st sort c s).1
          ≡ (q.result_ch, commit_result q.req (c.commit_seq + 1)) ∷ rest)
  unfolding process_epoch process_batch
  process_epoch-first_commits sort c s p q ps qs batch sorted in_step room current =
      let e : EpochState = record { cert = record c { current_batch = [] }; claimed_keys = [] } in
      let ((e', s'), _) = certify_txn st e s q.req in
      rw (batch, process_epoch)
        (rw sorted (
          (process_batch st e' s' qs).1,
          ap (λ r. (q.result_ch, r) ∷ (process_batch st e' s' qs).1)
              (first-commits e s q refl in_step room current),
        ))
