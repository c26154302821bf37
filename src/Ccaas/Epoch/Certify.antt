-- ===== src/Ccaas/Epoch/Certify.antt =====
-- What `certifyTxn` decides, over any store that keeps its contract.
use mathlib.Core.List.{append_assoc, append-nil, Memᴰ}
use ccas.Common.{
  ℕ, ◌+◌, ◌<◌, String, ◌≡◌, ◌≢◌, refl, sym, ap, ◌∙◌, ◌⊎◌, inl, inr, none, some, List, [], ◌∷◌, ◌++◌,
  arith, All, Option-cases, u64_mod, inc64_of_lt, eq_iff, eq_refl,
}
use ccas.Dict
use ccas.Dict.{Dict, get-set}
use ccas.Types.{ReadEntry, WriteEntry, TxnRequest, CommitWrite, TxnResult}
use ccas.Storage.{Store}
use ccas.Storage.Contract.{StoreLaws}
use ccas.Ccaas.Outcome.{Commits, Aborts}
use ccas.Ccaas.Versions.{
  stamp, advance, IsCurrent, Coupled, Coupled-mono, Coupled-advance, stamp-IsFresh,
}
use ccas.Ccaas.Immediate
use ccas.Ccaas.Immediate.Laws.{check_reads-All, All-check_reads, check_reads-Aborts}
use ccas.Ccaas.Epoch.{
  EpochState, check_reads, check_claims, claim, stamp_writes, commit_writes, certify_txn,
}

-- The two certifiers validate reads alike, reasons included.
pub check_reads-Immediate :
    (latest : Dict ℕ) (txn_id : String) (reads : List ReadEntry)
    → check_reads latest txn_id reads ≡ Immediate.check_reads latest txn_id reads
unfolding check_reads Immediate.check_reads
check_reads-Immediate latest txn_id [] = refl
check_reads-Immediate latest txn_id (r ∷ rs) =
    ground (arith, check_reads-Immediate latest txn_id rs)

-- No transaction with another id has claimed the key.
abbrev pub IsUnclaimed : Dict String → String → WriteEntry → Type 0
IsUnclaimed claimed txn_id w =
    (winner : String) → Dict.get claimed w.key ≡ some winner → winner ≡ txn_id

check_claims-All :
    (claimed : Dict String) (txn_id : String) (ws : List WriteEntry)
    → check_claims claimed txn_id ws ≡ none
    → All (IsUnclaimed claimed txn_id) ws
unfolding check_claims
check_claims-All claimed txn_id [] h = tt
check_claims-All claimed txn_id (w ∷ ws) h =
    (λ x e. ground (arith, eq_iff x txn_id), check_claims-All claimed txn_id ws (ground arith))

All-check_claims :
    (claimed : Dict String) (txn_id : String) (ws : List WriteEntry)
    → All (IsUnclaimed claimed txn_id) ws
    → check_claims claimed txn_id ws ≡ none
unfolding check_claims
All-check_claims claimed txn_id [] h = refl
All-check_claims claimed txn_id (w ∷ ws) h = elim (Option-cases (Dict.get claimed w.key)) [
  | inl e ↦ ground (arith, All-check_claims claimed txn_id ws h.1)
  | inr (x, e) ↦ ground (arith, All-check_claims claimed txn_id ws h.1, h.0 x e, eq_iff x txn_id)
]

-- After a commit the keys that the transaction has written are its own, and every other key is
-- claimed as before.
pub record Claims (claimed : Dict String) (req : TxnRequest) (claimed' : Dict String) : Type 0 where
  pub taken : (w : WriteEntry) → Memᴰ w req.write_set → Dict.get claimed' w.key ≡ some req.txn_id
  pub kept :
      (k : String) → All (λ w. w.key ≢ k) req.write_set → Dict.get claimed' k ≡ Dict.get claimed k

claim-kept :
    (claimed : Dict String) (txn_id k : String) (ws : List WriteEntry)
    → All (λ w. w.key ≢ k) ws
    → Dict.get (claim claimed txn_id ws) k ≡ Dict.get claimed k
unfolding claim
claim-kept claimed txn_id k [] h = refl
claim-kept claimed txn_id k (w ∷ ws) h =
    claim-kept (Dict.set claimed w.key txn_id) txn_id k ws h.1
    ∙ ground (arith, get-set claimed w.key k txn_id, eq_iff w.key k, h.0)

claim-own :
    (claimed : Dict String) (txn_id k : String) (ws : List WriteEntry)
    → Dict.get claimed k ≡ some txn_id
    → Dict.get (claim claimed txn_id ws) k ≡ some txn_id
unfolding claim
claim-own claimed txn_id k [] h = h
claim-own claimed txn_id k (w ∷ ws) h =
    claim-own (Dict.set claimed w.key txn_id) txn_id k ws
      (ground (arith, get-set claimed w.key k txn_id))

claim-taken :
    (claimed : Dict String) (txn_id : String) (ws : List WriteEntry) (w : WriteEntry)
    → Memᴰ w ws
    → Dict.get (claim claimed txn_id ws) w.key ≡ some txn_id
unfolding claim
claim-taken claimed txn_id [] w m = elim m [ ]
claim-taken claimed txn_id (x ∷ ws) w (Memᴰ.head e) =
    claim-own (Dict.set claimed x.key txn_id) txn_id w.key ws
      (ground (arith, get-set claimed x.key w.key txn_id, ap (λ y. y.key) e, eq_refl x.key))
claim-taken claimed txn_id (x ∷ ws) w (Memᴰ.tail m) =
    claim-taken (Dict.set claimed x.key txn_id) txn_id ws w m

claim-Claims :
    (claimed : Dict String) (req : TxnRequest)
    → Claims claimed req (claim claimed req.txn_id req.write_set)
claim-Claims claimed req = record {
  taken = claim-taken claimed req.txn_id req.write_set;
  kept = λ k. claim-kept claimed req.txn_id k req.write_set;
}

check_claims-Aborts :
    (claimed : Dict String) (req : TxnRequest) (ws : List WriteEntry) (res : TxnResult)
    → check_claims claimed req.txn_id ws ≡ some res
    → Aborts req res
unfolding check_claims
check_claims-Aborts claimed req [] res h = absurd (cc)
check_claims-Aborts claimed req (w ∷ ws) res h =
    ground (arith, check_claims-Aborts claimed req ws res)

-- The single loop of `certifyTxn` does what the two loops of `ImmediateCertifier` do.
pub stamp_writes-stamp :
    (seq : ℕ) (ws : List WriteEntry) (latest : Dict ℕ) (out : List CommitWrite)
    → stamp_writes seq ws latest out ≡ (out ++ stamp seq ws, advance latest seq ws)
unfolding stamp_writes stamp advance
stamp_writes-stamp seq [] latest out = rw append-nil
stamp_writes-stamp seq (w ∷ ws) latest out =
    rw (stamp_writes-stamp seq ws (Dict.set latest w.key seq), append_assoc)

module _ {S : Type 0} (st : Store S) (laws : StoreLaws st) where
  open laws use {table}

  -- The version map and the counter are in lockstep with the store.
  abbrev pub InStep : EpochState → S → Type 0
  InStep e s = Coupled e.latest_version e.commit_seq (table s)

  commit_writes-Commits :
      (e : EpochState) (s : S) (req : TxnRequest)
      → InStep e s
      → e.commit_seq + 1 < u64_mod
      → All (IsCurrent (table s)) req.read_set
      → let r = commit_writes st e s req in
        InStep r.0.0 r.0.1
        × Commits (table s) e.commit_seq req r.0.0.commit_seq (table r.0.1) r.1
        × Claims e.claimed_keys req r.0.0.claimed_keys
  unfolding commit_writes
  commit_writes-Commits e s req h room cur =
      let taken =
        laws.apply-accepts s
          (record {
            commit_seq = e.commit_seq + 1;
            txn_id = req.txn_id;
            writes = stamp (e.commit_seq + 1) req.write_set;
          })
          (stamp-IsFresh (e.commit_seq + 1) (table s) req.write_set
            (λ k x p. omega (arith, h.bounded k x p))) in
      rw (inc64_of_lt e.commit_seq room, stamp_writes-stamp)
        (
          rw (laws.apply-table s _ taken) (
              Coupled-advance e.latest_version (table s) req.write_set (omega arith)
                (Coupled-mono (omega arith) h)),
          record {
            current = cur;
            result = refl;
            counter = refl;
            written = laws.apply-table s _ taken;
          },
          claim-Claims e.claimed_keys req,
        )

  -- In step with the store and below the last uint64, a transaction of an epoch commits exactly if
  -- its reads are current and none of its keys is claimed by a transaction with another id. Then its
  -- writes reach the store under the next number, the certifier stays in step, and each key that it
  -- has written is claimed under its id, while the other keys stay claimed as they were; otherwise
  -- the result is an abort and nothing changes.
  pub certify_txn-decides :
      (e : EpochState) (s : S) (req : TxnRequest)
      → InStep e s
      → e.commit_seq + 1 < u64_mod
      → let r = certify_txn st e s req in
        (InStep r.0.0 r.0.1
          × Commits (table s) e.commit_seq req r.0.0.commit_seq (table r.0.1) r.1
          × All (IsUnclaimed e.claimed_keys req.txn_id) req.write_set
          × Claims e.claimed_keys req r.0.0.claimed_keys)
        ⊎ (((¬ All (IsCurrent (table s)) req.read_set)
              ⊎ (¬ All (IsUnclaimed e.claimed_keys req.txn_id) req.write_set))
            × Aborts req r.1
            × (r.0 ≡ (e, s)))
  unfolding certify_txn
  certify_txn-decides e s req h room =
      elim (Option-cases (check_reads e.latest_version req.txn_id req.read_set)) [
        | inl valid ↦ elim (Option-cases (check_claims e.claimed_keys req.txn_id req.write_set)) [
          | inl free ↦
              let (step, commits, claims) = commit_writes-Commits e s req h room (
                check_reads-All h req.txn_id req.read_set
                  (sym (check_reads-Immediate _ _ _) ∙ valid)) in
              rw (valid, certify_txn)
                (rw (free, certify_txn) (inl (step, commits, check_claims-All _ _ _ free, claims)))
          | inr (res, taken) ↦
              rw (valid, certify_txn)
                (rw (taken, certify_txn)
                  (inr (
                    inr (λ a. cc (All-check_claims _ _ _ a)),
                    check_claims-Aborts _ req req.write_set res taken,
                    refl,
                  )))
        ]
        | inr (res, stale) ↦
            let stale' = sym (check_reads-Immediate _ _ _) ∙ stale in
            rw (stale, certify_txn)
              (inr (
                inl (λ a. cc (stale', All-check_reads h req.txn_id req.read_set a)),
                check_reads-Aborts _ req req.read_set res stale',
                refl,
              ))
      ]

module _ {S : Type 0} (st : Store S) where
  -- Over any store: both checks pass and the writes are sent, or the result is an abort and nothing
  -- changes.
  pub certify_txn_cases :
      (e : EpochState) (s : S) (req : TxnRequest)
      → (All (IsUnclaimed e.claimed_keys req.txn_id) req.write_set
          × (certify_txn st e s req ≡ commit_writes st e s req))
        ⊎ ((res : TxnResult) × (certify_txn st e s req ≡ ((e, s), res)) × Aborts req res)
  unfolding certify_txn
  certify_txn_cases e s req =
      elim (Option-cases (check_reads e.latest_version req.txn_id req.read_set)) [
        | inl valid ↦ elim (Option-cases (check_claims e.claimed_keys req.txn_id req.write_set)) [
          | inl free ↦
              inl (check_claims-All _ _ _ free, rw (valid, certify_txn) (rw (free, certify_txn)))
          | inr (res, taken) ↦ inr (
            res,
            rw (valid, certify_txn) (rw (taken, certify_txn)),
            check_claims-Aborts _ req req.write_set res taken,
          )
        ]
        | inr (res, stale) ↦ inr (
          res,
          rw (stale, certify_txn),
          check_reads-Aborts _ req req.read_set res (sym (check_reads-Immediate _ _ _) ∙ stale),
        )
      ]
