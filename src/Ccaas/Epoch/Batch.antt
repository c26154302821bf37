-- ===== src/Ccaas/Epoch/Batch.antt =====
-- What `processEpoch` answers: everyone once, in an order that does not depend on the arrivals.
use mathlib.Core.List.{Perm}
use mathlib.Core.List.Perm
use ccas.Common.{ℕ, String, ◌≡◌, refl, ◌∙◌, inl, inr, List, [], ◌∷◌, map}
use ccas.Types.{TxnRequest, TxnResult}
use ccas.Storage.{Store}
use ccas.Ccaas.Epoch.{
  PendingTxn, EpochCertifier, EpochState, commit_writes, certify_txn, process_batch, process_epoch,
}
use ccas.Ccaas.Epoch.Certify.{certify_txn_cases}
use ccas.Ccaas.Epoch.Sorting.{Sorts, IdsDistinct, Sorts-agree}

-- An answer as its channel and the id under which it comes.
abbrev pub answer_of : ℕ × TxnResult → ℕ × String
answer_of a = (a.0, a.1.txn_id)

-- What a pending transaction waits for.
abbrev pub ticket : PendingTxn → ℕ × String
ticket p = (p.result_ch, p.req.txn_id)

module _ {S : Type 0} (st : Store S) where
  -- A result carries the id of its request.
  pub certify_txn-txn_id :
      (e : EpochState) (s : S) (req : TxnRequest) → (certify_txn st e s req).1.txn_id ≡ req.txn_id
  unfolding commit_writes
  certify_txn-txn_id e s req = elim (certify_txn_cases st e s req) [
    | inl (_, done) ↦ rw done
    | inr (res, refused, a) ↦ rw refused a.id
  ]

  pub process_batch-answers :
      (e : EpochState) (s : S) (ps : List PendingTxn)
      → map answer_of (process_batch st e s ps).1 ≡ map ticket ps
  unfolding process_batch
  process_batch-answers e s [] = refl
  process_batch-answers e s (p ∷ ps) =
      let ((e', s'), result) = certify_txn st e s p.req in
      cc (certify_txn-txn_id e s p.req, process_batch-answers e' s' ps)

  pub certify_txn-current_batch :
      (e : EpochState) (s : S) (req : TxnRequest)
      → (certify_txn st e s req).0.0.current_batch ≡ e.current_batch
  unfolding commit_writes
  certify_txn-current_batch e s req = elim (certify_txn_cases st e s req) [
    | inl (_, done) ↦ rw done
    | inr (res, refused, a) ↦ rw refused
  ]

  process_batch-current_batch :
      (e : EpochState) (s : S) (ps : List PendingTxn)
      → (process_batch st e s ps).0.0.current_batch ≡ e.current_batch
  unfolding process_batch
  process_batch-current_batch e s [] = refl
  process_batch-current_batch e s (p ∷ ps) =
      let ((e', s'), _) = certify_txn st e s p.req in
      process_batch-current_batch e' s' ps ∙ certify_txn-current_batch e s p.req

  -- An epoch empties the batch and answers every transaction of it exactly once, on its own channel
  -- and under its own id.
  pub process_epoch-answers :
      (sort : List PendingTxn → List PendingTxn) (c : EpochCertifier) (s : S)
      → Sorts sort
      → let r = process_epoch st sort c s in
        (r.0.0.current_batch ≡ []) × Perm (map answer_of r.1) (map ticket c.current_batch)
  unfolding process_epoch
  process_epoch-answers sort c s h = answered c.current_batch refl
    where
      answered :
          (b : List PendingTxn)
          → c.current_batch ≡ b
          → let r = process_epoch st sort c s in
            (r.0.0.current_batch ≡ []) × Perm (map answer_of r.1) (map ticket c.current_batch)
      answered [] e = rw (e, process_epoch) (refl, Perm.nil)
      answered (p ∷ ps) e =
          rw (e, process_epoch)
            (
              process_batch-current_batch _ s (sort (p ∷ ps)),
              rw (process_batch-answers _ s (sort (p ∷ ps)))
                  (Perm.map ticket (h.permutes (p ∷ ps))),
            )

  -- The outcome of an epoch does not depend on the order of arrival, nor on how `sort.Slice` breaks
  -- ties: with distinct ids, any two arrivals of the same transactions give the same answers, the
  -- same certifier and the same store.
  pub process_epoch-deterministic :
      (sort sort' : List PendingTxn → List PendingTxn)
      → (c : EpochCertifier) (s : S) (batch batch' : List PendingTxn) → Sorts sort
      → Sorts sort'
      → IdsDistinct batch
      → Perm batch batch'
      → process_epoch st sort (record c { current_batch = batch }) s
        ≡ process_epoch st sort' (record c { current_batch = batch' }) s
  unfolding process_epoch
  process_epoch-deterministic sort sort' c s [] [] h h' d p = refl
  process_epoch-deterministic sort sort' c s [] (y ∷ ys) h h' d p = absurd (cc (Perm.nil-eq p))
  process_epoch-deterministic sort sort' c s (x ∷ xs) [] h h' d p = absurd (cc (Perm.eq-nil p))
  process_epoch-deterministic sort sort' c s (x ∷ xs) (y ∷ ys) h h' d p =
      rw (Sorts-agree sort sort' (x ∷ xs) (y ∷ ys) h h' d p)
