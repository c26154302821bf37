-- ===== src/Ccaas/Epoch/Panicking/Loop.antt =====
-- How far the loop of `processEpoch` comes before a panic ends it.
use ccas.Common.{
  ℕ, String, ◌≡◌, refl, ap, some, ◌∙◌, ◌⊎◌, inl, inr, Option, none, List, [], ◌∷◌, ◌++◌, inc64,
  Option-cases,
}
use ccas.Types.{TxnRequest, TxnResult}
use ccas.Storage.{Store}
use ccas.Ccaas.Epoch.{
  PendingTxn, EpochState, stamp_writes, claim, check_reads, check_claims, certify_txn,
  commit_writes, process_batch,
}
use ccas.Ccaas.Epoch.Batch.{certify_txn-current_batch}
use ccas.Ccaas.Epoch.Panicking.{
  Panics, returns, panics, commit_or_panic, certify_or_panic, batch_or_panic,
}

module _ {S : Type 0} (st : Store S) (may : Panics S) where
  -- `ApplyCommit` returns, or it panics and leaves the batch alone.
  commit_or_panic_cases :
      (e : EpochState) (s : S) (req : TxnRequest)
      → (let r = commit_writes st e s req in commit_or_panic st may e s req ≡ returns r.0 r.1)
        ⊎ ((es : EpochState × S) × (text : String) × (commit_or_panic st may e s req
              ≡ panics es text)
            × (es.0.current_batch ≡ e.current_batch))
  unfolding commit_or_panic
  commit_or_panic_cases e s req =
      elim (Option-cases (
        may s (record {
          commit_seq = inc64 e.commit_seq;
          txn_id = req.txn_id;
          writes = (stamp_writes (inc64 e.commit_seq) req.write_set e.latest_version []).0;
        }))) [
          | inl calm ↦ inl (rw (calm, commit_or_panic) refl)
          | inr ((s', text), burst) ↦ inr (
            (
              record {
                cert = record e.cert {
                  latest_version =
                      (stamp_writes (inc64 e.commit_seq) req.write_set e.latest_version []).1;
                  commit_seq = inc64 e.commit_seq;
                };
                claimed_keys = claim e.claimed_keys req.txn_id req.write_set;
              },
              s',
            ),
            text,
            rw (burst, commit_or_panic) refl,
            refl,
          )
        ]

  -- Either `certifyTxn` does what it does without a panic, or `ApplyCommit` panics.
  pub certify_or_panic_cases :
      (e : EpochState) (s : S) (req : TxnRequest)
      → (let r = certify_txn st e s req in certify_or_panic st may e s req ≡ returns r.0 r.1)
        ⊎ ((es : EpochState × S) × (text : String) × (certify_or_panic st may e s req
              ≡ panics es text)
            × (es.0.current_batch ≡ e.current_batch))
  unfolding certify_or_panic certify_txn
  certify_or_panic_cases e s req =
      elim (Option-cases (check_reads e.latest_version req.txn_id req.read_set)) [
        | inr (res, stale) ↦ inl (rw (stale, certify_or_panic, certify_txn) refl)
        | inl valid ↦ elim (Option-cases (check_claims e.claimed_keys req.txn_id req.write_set)) [
          | inr (res, taken) ↦ inl (
              rw (valid, certify_or_panic, certify_txn)
                (rw (taken, certify_or_panic, certify_txn) refl))
          | inl free ↦
              rw (valid, certify_or_panic, certify_txn)
                (rw (free, certify_or_panic, certify_txn) (commit_or_panic_cases e s req))
        ]
      ]

  -- The transaction at which the loop has come to its end: none, or the one that panics.
  abbrev pub StopsAt : EpochState → S → List PendingTxn → Option String → Type 0
  StopsAt e s after none = after ≡ []
  StopsAt e s after (some text) =
      (p : PendingTxn) × (ps : List PendingTxn) × (es : EpochState × S) × (after ≡ p ∷ ps)
      × (certify_or_panic st may e s p.req ≡ panics es text)

  -- The loop answers the transactions before the one that panics, in their order, as if nothing had
  -- panicked, and all of them if none does.
  pub record Partly (e : EpochState) (s : S) (ps : List PendingTxn)
      (r : (EpochState × S) × (List (ℕ × TxnResult) × Option String)) : Type 0 where
    pub before : List PendingTxn
    pub after : List PendingTxn
    pub split : before ++ after ≡ ps
    pub decided : r.1.0 ≡ (process_batch st e s before).1
    pub stops_at : let d = process_batch st e s before in StopsAt d.0.0 d.0.1 after r.1.1
    pub batch_kept : r.0.0.current_batch ≡ e.current_batch

  pub batch_or_panic-Partly :
      (e : EpochState) (s : S) (ps : List PendingTxn) → Partly e s ps (batch_or_panic st may e s ps)
  unfolding batch_or_panic process_batch
  batch_or_panic-Partly e s [] = record {
    before = [];
    after = [];
    split = refl;
    decided = refl;
    stops_at = refl;
    batch_kept = refl;
  }
  batch_or_panic-Partly e s (p ∷ ps) = elim (certify_or_panic_cases e s p.req) [
    | inr (es, text, burst, kept) ↦
        rw (burst, batch_or_panic)
          (record {
            before = [];
            after = p ∷ ps;
            split = refl;
            decided = refl;
            stops_at = (p, ps, es, refl, burst);
            batch_kept = kept;
          })
    | inl calm ↦
        let ((e', s'), result) = certify_txn st e s p.req in
        let rest = batch_or_panic-Partly e' s' ps in
        rw (calm, batch_or_panic)
          (record {
            before = p ∷ rest.before;
            after = rest.after;
            split = ap (λ l. p ∷ l) rest.split;
            decided = ap (λ l. (p.result_ch, result) ∷ l) rest.decided;
            stops_at = rest.stops_at;
            batch_kept = rest.batch_kept ∙ certify_txn-current_batch st e s p.req;
          })
  ]
