-- ===== src/Ccaas/Epoch/Panicking/Stale.antt =====
-- Epochs whose transactions have all read what the certifier's map has left behind.
use mathlib.Core.List.{Memᴰ}
use ccas.Common.{
  ℕ, String, ◌≡◌, ◌≢◌, refl, sym, ap, subst, List, [], ◌∷◌, All, ◌∙◌, inl, inr, Option, none, some,
  Option-cases,
}
use ccas.Dict
use ccas.Dict.{Dict}
use ccas.Types.{WriteEntry, TxnRequest, TxnResult}
use ccas.Storage.{Store}
use ccas.Storage.Contract.{Table}
use ccas.Ccaas.Immediate.Laws.{check_reads-Aborts}
use ccas.Ccaas.Outcome.{Aborts}
use ccas.Ccaas.Versions.{version_at}
use ccas.Ccaas.Refused.{ReadsWritten, check_reads-stale}
use ccas.Ccaas.Epoch.{PendingTxn, EpochCertifier, EpochState, check_reads}
use ccas.Ccaas.Epoch.Sorting.{Sorts}
use ccas.Ccaas.Epoch.Panicking.Answers.{sort-none}
use ccas.Ccaas.Epoch.Certify.{check_reads-Immediate}
use ccas.Ccaas.Epoch.Panicking.{
  Panics, returns, certify_or_panic, batch_or_panic, epoch_or_panic, with_recovery,
}

-- The results are aborts of these transactions, in this order and each on its own channel.
abbrev pub AllRefused : List PendingTxn → List (ℕ × TxnResult) → Type 0
AllRefused [] [] = Unit {0}
AllRefused (p ∷ ps) ((ch, r) ∷ sent) = ((ch ≡ p.result_ch) × Aborts p.req r) × AllRefused ps sent
AllRefused _ _ = ⊥

with_recovery-calm :
    (batch : List PendingTxn) (sent : List (ℕ × TxnResult)) (stop : Option String)
    → stop ≡ none
    → with_recovery batch (sent, stop) ≡ sent
unfolding with_recovery
with_recovery-calm batch sent none h = refl
with_recovery-calm batch sent (some text) h = absurd (cc)

module _ {S : Type 0} (st : Store S) (may : Panics S) (table : S → Table) where
  -- A read of another version than the certifier's is refused, and nothing is sent to the store.
  certify_or_panic-stale :
      (e : EpochState) (s : S) (q : TxnRequest) (k : String) (ver n : ℕ)
      → Memᴰ (record { key = k; version_seen = ver }) q.read_set
      → Dict.get e.latest_version k ≡ some n
      → n ≢ ver
      → (res : TxnResult) × (certify_or_panic st may e s q ≡ returns (e, s) res) × Aborts q res
  unfolding certify_or_panic
  certify_or_panic-stale e s q k ver n m h ne =
      let same = check_reads-Immediate e.latest_version q.txn_id q.read_set in
      elim (Option-cases (check_reads e.latest_version q.txn_id q.read_set)) [
        | inl valid ↦ absurd (
            check_reads-stale e.latest_version q.txn_id q.read_set k ver n m h ne
              (sym same ∙ valid))
        | inr (res, stale) ↦ (
          res,
          rw (stale, certify_or_panic) refl,
          check_reads-Aborts e.latest_version q q.read_set res (sym same ∙ stale),
        )
      ]

  -- Each of these transactions reads a key that `req` writes, at the version that the store shows.
  abbrev pub AllRead : S → TxnRequest → List PendingTxn → Type 0
  AllRead s req ps = All (λ p. ReadsWritten (table s) req p.req) ps

  -- The certifier's map has one number for all that `req` writes, and the store shows it nowhere.
  abbrev pub Ahead : Dict ℕ → S → TxnRequest → ℕ → Type 0
  Ahead latest s req n =
      ((w : WriteEntry) → Memᴰ w req.write_set → Dict.get latest w.key ≡ some n)
      × ((k : String) → n ≢ version_at (table s) k)

  batch_or_panic-stale :
      (e : EpochState) (s : S) (req : TxnRequest) (n : ℕ) (ps : List PendingTxn)
      → Ahead e.latest_version s req n
      → AllRead s req ps
      → let r = batch_or_panic st may e s ps in
        (r.0 ≡ (e, s)) × (r.1.1 ≡ none) × AllRefused ps r.1.0
  unfolding batch_or_panic
  batch_or_panic-stale e s req n [] ahead reads = (refl, refl, tt)
  batch_or_panic-stale e s req n (p ∷ ps) ahead ((w, written, seen), reads) =
      let (res, refused, aborts) =
        certify_or_panic-stale e s p.req w.key (version_at (table s) w.key) n seen
          (ahead.0 w written) (ahead.1 w.key) in
      let (kept, calm, rest) = batch_or_panic-stale e s req n ps ahead reads in
      rw (refused, batch_or_panic) (kept, calm, ((refl, aborts), rest))

  module _ (sort : List PendingTxn → List PendingTxn) where
    -- Batches that are certified one epoch after the other: every transaction of each is refused, in
    -- its order, and apart from the batch nothing changes.
    abbrev pub EpochsRefuse : EpochCertifier → S → List (List PendingTxn) → Type 0
    EpochsRefuse c s [] = Unit {0}
    EpochsRefuse c s (batch ∷ batches) =
        let r = epoch_or_panic st may sort (record c { current_batch = batch }) s in
        AllRefused (sort batch) r.1
        × (r.0 ≡ (record c { current_batch = [] }, s))
        × EpochsRefuse r.0.0 r.0.1 batches

    epoch_or_panic-stale :
        (c : EpochCertifier) (s : S) (req : TxnRequest) (n : ℕ) (batch : List PendingTxn)
        → Sorts sort
        → Ahead c.latest_version s req n
        → AllRead s req (sort batch)
        → let r = epoch_or_panic st may sort (record c { current_batch = batch }) s in
          AllRefused (sort batch) r.1 × (r.0 ≡ (record c { current_batch = [] }, s))
    unfolding epoch_or_panic with_recovery
    epoch_or_panic-stale c s req n [] sorts ahead reads = rw (sort-none sort sorts) (tt, refl)
    epoch_or_panic-stale c s req n (p ∷ ps) sorts ahead reads =
        let e : EpochState = record { cert = record c { current_batch = [] }; claimed_keys = [] } in
        let (kept, calm, refused) = batch_or_panic-stale e s req n (sort (p ∷ ps)) ahead reads in
        let ended = (batch_or_panic st may e s (sort (p ∷ ps))).1 in
        (
          subst (AllRefused (sort (p ∷ ps)))
              (sym (with_recovery-calm (sort (p ∷ ps)) ended.0 ended.1 calm)) refused,
          ap (λ (r : EpochState × S). (r.0.cert, r.1)) kept,
        )

    pub stale-EpochsRefuse :
        (c : EpochCertifier) (s : S) (req : TxnRequest) (n : ℕ) (batches : List (List PendingTxn))
        → Sorts sort
        → Ahead c.latest_version s req n
        → All (λ batch. AllRead s req (sort batch)) batches
        → EpochsRefuse c s batches
    stale-EpochsRefuse c s req n [] sorts ahead reads = tt
    stale-EpochsRefuse c s req n (batch ∷ batches) sorts ahead reads =
        let (refused, kept) = epoch_or_panic-stale c s req n batch sorts ahead reads.0 in
        (
          refused,
          kept,
          subst (λ r. EpochsRefuse r.0 r.1 batches) (sym kept)
              (stale-EpochsRefuse (record c { current_batch = [] }) s req n batches sorts ahead
                reads.1),
        )
