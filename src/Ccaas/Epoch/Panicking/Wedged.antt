-- ===== src/Ccaas/Epoch/Panicking/Wedged.antt =====
-- What a panic leaves behind: the version map has moved, and the store has not.
use ccas.Common.{
  ◌+◌, ◌<◌, String, ◌≡◌, ◌≢◌, refl, sym, ap, subst, List, [], ◌∷◌, All, false, none, some, arith,
  inc64, inc64_of_lt, u64_mod,
}
use ccas.Dict
use ccas.Dict.{Dict}
use ccas.Common.Text
use ccas.Types.{WriteEntry, TxnRequest}
use ccas.Storage.{Store}
use ccas.Storage.Contract.{Table}
use ccas.Ccaas.Versions.{advance, version_at, Coupled}
use ccas.Ccaas.Refused.{ReadsWritten, next_record, get-advance, version_at-le}
use ccas.Ccaas.Epoch.{PendingTxn, EpochCertifier, EpochState, check_reads, check_claims, claim}
use ccas.Ccaas.Epoch.Sorting.{Sorts}
use ccas.Ccaas.Epoch.Certify.{stamp_writes-stamp}
use ccas.Ccaas.Epoch.Panicking.{
  Panics, panics, commit_or_panic, certify_or_panic, batch_or_panic, epoch_or_panic, with_recovery,
  recovered, received,
}
use ccas.Ccaas.Epoch.Panicking.Stale.{AllRead, EpochsRefuse, stale-EpochsRefuse}

-- What `certifyTxn` has done when `ApplyCommit` panics.
abbrev pub half_done : EpochState → TxnRequest → EpochState
half_done e req = record {
  cert = record e.cert {
    latest_version = advance e.latest_version (inc64 e.commit_seq) req.write_set;
    commit_seq = inc64 e.commit_seq;
  };
  claimed_keys = claim e.claimed_keys req.txn_id req.write_set;
}

check_claims-none : (txn_id : String) (ws : List WriteEntry) → check_claims [] txn_id ws ≡ none
unfolding check_claims Dict.get
check_claims-none txn_id [] = refl
check_claims-none txn_id (w ∷ ws) = check_claims-none txn_id ws

module _ {S : Type 0} (st : Store S) (may : Panics S) (table : S → Table) where
  certify_or_panic-panics :
      (e : EpochState) (s s' : S) (req : TxnRequest) (text : String)
      → check_reads e.latest_version req.txn_id req.read_set ≡ none
      → check_claims e.claimed_keys req.txn_id req.write_set ≡ none
      → may s (next_record e.commit_seq req) ≡ some (s', text)
      → certify_or_panic st may e s req ≡ panics (half_done e req, s') text
  unfolding certify_or_panic commit_or_panic
  certify_or_panic-panics e s s' req text valid free burst =
      rw (valid, certify_or_panic)
        (rw (free, certify_or_panic)
          (rw (stamp_writes-stamp, commit_or_panic)
            (rw (burst, commit_or_panic) (rw stamp_writes-stamp refl))))

  module _ (sort : List PendingTxn → List PendingTxn) where
    -- The epoch whose first transaction panics.
    epoch_or_panic-panics :
        (c : EpochCertifier) (s s' : S) (head p : PendingTxn) (tail ps : List PendingTxn)
        (text : String)
        → c.current_batch ≡ head ∷ tail
        → sort (head ∷ tail) ≡ p ∷ ps
        → check_reads c.latest_version p.req.txn_id p.req.read_set ≡ none
        → may s (next_record c.commit_seq p.req) ≡ some (s', text)
        → epoch_or_panic st may sort c s ≡ (
          (
            record c {
              latest_version = advance c.latest_version (inc64 c.commit_seq) p.req.write_set;
              commit_seq = inc64 c.commit_seq;
              current_batch = [];
            },
            s',
          ),
          recovered text (p ∷ ps),
        )
    unfolding epoch_or_panic batch_or_panic with_recovery
    epoch_or_panic-panics c s s' head p tail ps text batch sorted valid burst =
        let e : EpochState = record { cert = record c { current_batch = [] }; claimed_keys = [] } in
        let ends =
          certify_or_panic-panics e s s' p.req text valid
            (check_claims-none p.req.txn_id p.req.write_set) burst in
        rw (batch, epoch_or_panic) (rw sorted (rw (ends, batch_or_panic) refl))

    -- In the epoch's order the first transaction passes the read check, `ApplyCommit` panics on its
    -- record and leaves the store's table as it was. Then its client receives an abort with the text
    -- of the panic, but the version map already counts the writes: whichever batches are certified in
    -- the epochs that follow, if every transaction in them reads a key that the first one writes, at
    -- the version that the store shows, every one is aborted on its own channel and nothing changes.
    -- In between the certifier is not synced and nothing else commits. The certifier is in step with
    -- the store before the panic, and its counter is below the last uint64.
    pub panic-wedges :
        (c : EpochCertifier) (s s' : S) (head p : PendingTxn) (tail ps : List PendingTxn)
        (text : String) (batches : List (List PendingTxn))
        → Sorts sort
        → c.current_batch ≡ head ∷ tail
        → sort (head ∷ tail) ≡ p ∷ ps
        → Coupled c.latest_version c.commit_seq (table s)
        → c.commit_seq + 1 < u64_mod
        → check_reads c.latest_version p.req.txn_id p.req.read_set ≡ none
        → may s (next_record c.commit_seq p.req) ≡ some (s', text)
        → table s' ≡ table s
        → All (λ batch. AllRead st may table s p.req (sort batch)) batches
        → let r = epoch_or_panic st may sort c s in
          (received p.result_ch r.1
            ≡ some (record {
              txn_id = p.req.txn_id;
              committed = false;
              commit_seq = 0;
              reason = Text.◌++◌ "epoch panic: " text;
            }))
          × (table r.0.1 ≡ table s)
          × EpochsRefuse st may table sort r.0.0 r.0.1 batches
    unfolding recovered received
    panic-wedges c s s' head p tail ps text batches sorts batch sorted coupled room valid burst same
          reads =
        let seq = inc64 c.commit_seq in
        let newer : (k : String) → seq ≢ version_at (table s') k = λ k f. absurd (
          omega (
            arith,
            inc64_of_lt c.commit_seq room,
            version_at-le (table s) k coupled,
            f,
            ap (λ t. version_at t k) same,
          )) in
        let wedged : EpochCertifier = record c {
          latest_version = advance c.latest_version seq p.req.write_set;
          commit_seq = seq;
          current_batch = [];
        } in
        rw (epoch_or_panic-panics c s s' head p tail ps text batch sorted valid burst) (
          ground arith,
          same,
          stale-EpochsRefuse st may table sort wedged s' p.req seq batches sorts
              (λ w written. get-advance c.latest_version seq p.req.write_set written, newer)
              (subst (λ t. All (λ b. All (λ q. ReadsWritten t p.req q.req) (sort b)) batches)
                (sym same) reads),
        )
