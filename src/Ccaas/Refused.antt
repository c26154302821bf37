-- ===== src/Ccaas/Refused.antt =====
-- A store that refuses a commit record, as a remote store does when the connection fails.
use mathlib.Core.List.{Memᴰ}
use ccas.Common.{
  ℕ, ◌+◌, ◌≤◌, ◌<◌, String, ◌≡◌, ◌≢◌, refl, sym, ap, subst, ◌∙◌, inl, inr, Option, none, some, List,
  [], ◌∷◌, arith, inc64, inc64_of_lt, u64_mod, Option-cases, eq_refl, All,
}
use ccas.Dict
use ccas.Dict.{Dict, get-set}
use ccas.Types.{ReadEntry, WriteEntry, TxnRequest, CommitRecord}
use ccas.Storage.{Entry, Store}
use ccas.Storage.Contract.{Table}
use ccas.Ccaas.Reasons.{abort}
use ccas.Ccaas.Outcome.{Aborts, commit_result}
use ccas.Ccaas.Versions.{stamp, advance, version_at, version_of, Coupled}
use ccas.Ccaas.Immediate
use ccas.Ccaas.Immediate.{ImmediateCertifier, reply}
use ccas.Ccaas.Immediate.Laws.{check_reads-Aborts}
use ccas.Ccaas.Epoch
use ccas.Ccaas.Epoch.{EpochState}
use ccas.Ccaas.Epoch.Certify.{stamp_writes-stamp}

-- The record that the certifiers send to the store.
abbrev pub next_record : ℕ → TxnRequest → CommitRecord
next_record seq req = record {
  commit_seq = inc64 seq;
  txn_id = req.txn_id;
  writes = stamp (inc64 seq) req.write_set;
}

get-advance_same :
    (l : Dict ℕ) (n : ℕ) (ws : List WriteEntry) (k : String)
    → Dict.get l k ≡ some n
    → Dict.get (advance l n ws) k ≡ some n
unfolding advance
get-advance_same l n [] k h = h
get-advance_same l n (w ∷ ws) k h =
    get-advance_same (Dict.set l w.key n) n ws k (ground (arith, get-set l w.key k n))

-- Every key that was written has the new version.
pub get-advance :
    (l : Dict ℕ) (n : ℕ) (ws : List WriteEntry) {w : WriteEntry}
    → Memᴰ w ws
    → Dict.get (advance l n ws) w.key ≡ some n
unfolding advance
get-advance l n [] m = elim m [ ]
get-advance l n (x ∷ ws) {w} (Memᴰ.head e) =
    get-advance_same (Dict.set l x.key n) n ws w.key
      (ground (arith, get-set l x.key w.key n, ap (λ y. y.key) e, eq_refl x.key))
get-advance l n (x ∷ ws) (Memᴰ.tail m) = get-advance (Dict.set l x.key n) n ws m

pub version_at-le :
    {l : Dict ℕ} {n : ℕ} (t : Table) (k : String) → Coupled l n t → version_at t k ≤ n
version_at-le {n} t k c = bounded_by (t k) (c.bounded k)
  where
    bounded_by : (o : Option Entry) → ((e : Entry) → o ≡ some e → e.version ≤ n) → version_of o ≤ n
    bounded_by none h = omega arith
    bounded_by (some e) h = h e refl

-- The second request reads a key that the first writes, at the version in the table.
abbrev pub ReadsWritten : Table → TxnRequest → TxnRequest → Type 0
ReadsWritten t req q =
    (w : WriteEntry) × Memᴰ w req.write_set
    × Memᴰ (record { key = w.key; version_seen = version_at t w.key }) q.read_set

-- A read of another version than the certifier's is refused.
pub check_reads-stale :
    (l : Dict ℕ) (txn_id : String) (reads : List ReadEntry) (k : String) (ver n : ℕ)
    → Memᴰ (record { key = k; version_seen = ver }) reads
    → Dict.get l k ≡ some n
    → n ≢ ver
    → Immediate.check_reads l txn_id reads ≢ none
unfolding Immediate.check_reads
check_reads-stale l txn_id [] k ver n m h ne = elim m [ ]
check_reads-stale l txn_id (r ∷ rs) k ver n (Memᴰ.head e) h ne =
    let found : Dict.get l r.key ≡ some n = sym (ap (λ x. Dict.get l x.key) e) ∙ h in
    let seen : ver ≡ r.version_seen = ap (λ x. x.version_seen) e in ground (arith, found, seen)
check_reads-stale l txn_id (r ∷ rs) k ver n (Memᴰ.tail m) h ne =
    ground (arith, check_reads-stale l txn_id rs k ver n m h ne)

module _ {S : Type 0} (st : Store S) where
  -- A transaction that reads a key at another version than the certifier's aborts, and nothing
  -- changes.
  submit_commit-stale :
      (c : ImmediateCertifier) (s : S) (q : TxnRequest) (k : String) (ver n : ℕ)
      → Memᴰ (record { key = k; version_seen = ver }) q.read_set
      → Dict.get c.latest_version k ≡ some n
      → n ≢ ver
      → let r = Immediate.submit_commit st c s q in (r.0 ≡ (c, s)) × Aborts q r.1
  unfolding Immediate.submit_commit
  submit_commit-stale c s q k ver n m h ne =
      elim (Option-cases (Immediate.check_reads c.latest_version q.txn_id q.read_set)) [
        | inl e ↦ absurd (check_reads-stale c.latest_version q.txn_id q.read_set k ver n m h ne e)
        | inr (res, e) ↦
            rw (e, Immediate.submit_commit)
              (refl, check_reads-Aborts c.latest_version q q.read_set res e)
      ]

  -- What `SubmitCommit` leaves when the store refuses its record.
  submit_commit-refused :
      (c : ImmediateCertifier) (s : S) (req : TxnRequest) (err : String)
      → Immediate.check_reads c.latest_version req.txn_id req.read_set ≡ none
      → (st.apply_commit s (next_record c.commit_seq req)).1 ≡ some err
      → let seq = inc64 c.commit_seq in
        Immediate.submit_commit st c s req ≡ (
          (
            record {
              latest_version = advance c.latest_version seq req.write_set;
              commit_seq = seq;
            },
            (st.apply_commit s (next_record c.commit_seq req)).0,
          ),
          abort req.txn_id err,
        )
  unfolding Immediate.submit_commit Immediate.commit_writes
  submit_commit-refused c s req err valid refused =
      rw (valid, Immediate.submit_commit) (rw refused refl)

module _ {S : Type 0} (st : Store S) (table : S → Table) where
  -- Each of these requests reads a key that `req` writes, at the version that the store shows.
  abbrev pub AllRead : S → TxnRequest → List TxnRequest → Type 0
  AllRead s req qs = All (ReadsWritten (table s) req) qs

  -- The requests are submitted one after the other, and each of them aborts and changes nothing.
  abbrev pub AllAbort : ImmediateCertifier → S → List TxnRequest → Type 0
  AllAbort c s [] = Unit {0}
  AllAbort c s (q ∷ qs) =
      let r = Immediate.submit_commit st c s q in
      Aborts q r.1 × (r.0 ≡ (c, s)) × AllAbort r.0.0 r.0.1 qs

  stale-AllAbort :
      (c : ImmediateCertifier) (s : S) (req : TxnRequest) (n : ℕ) (qs : List TxnRequest)
      → ((w : WriteEntry) → Memᴰ w req.write_set → Dict.get c.latest_version w.key ≡ some n)
      → ((k : String) → n ≢ version_at (table s) k)
      → AllRead s req qs
      → AllAbort c s qs
  stale-AllAbort c s req n [] known newer reads = tt
  stale-AllAbort c s req n (q ∷ qs) known newer ((w, written, seen), reads) =
      let (kept, aborted) =
        submit_commit-stale st c s q w.key (version_at (table s) w.key) n seen (known w written)
          (newer w.key) in
      (
        aborted,
        kept,
        subst (λ r. AllAbort r.0 r.1 qs) (sym kept) (stale-AllAbort c s req n qs known newer reads),
      )

  -- The store refuses the record of a transaction whose reads are valid, and keeps its table. Then
  -- the transaction aborts, but the certifier already counts its writes: whichever transactions are
  -- submitted next, one after the other, if each of them reads a key that the refused one writes, at
  -- the version that the store shows, every one of them aborts and changes nothing. In between the
  -- certifier is not synced, and nothing else commits. The certifier is in step with the store before
  -- the refusal, and its counter is below the last uint64.
  pub submit_commit-wedges :
      (c : ImmediateCertifier) (s : S) (req : TxnRequest) (err : String) (qs : List TxnRequest)
      → Coupled c.latest_version c.commit_seq (table s)
      → c.commit_seq + 1 < u64_mod
      → Immediate.check_reads c.latest_version req.txn_id req.read_set ≡ none
      → (st.apply_commit s (next_record c.commit_seq req)).1 ≡ some err
      → table (st.apply_commit s (next_record c.commit_seq req)).0 ≡ table s
      → AllRead s req qs
      → let r = Immediate.submit_commit st c s req in
        (r.1 ≡ abort req.txn_id err) × (table r.0.1 ≡ table s) × AllAbort r.0.0 r.0.1 qs
  submit_commit-wedges c s req err qs coupled room valid refused same reads =
      let seq = inc64 c.commit_seq in
      let s' = (st.apply_commit s (next_record c.commit_seq req)).0 in
      let newer : (k : String) → seq ≢ version_at (table s') k = λ k e. absurd (
        omega (
          arith,
          inc64_of_lt c.commit_seq room,
          version_at-le (table s) k coupled,
          e,
          ap (λ t. version_at t k) same,
        )) in
      rw (submit_commit-refused st c s req err valid refused) (
        refl,
        same,
        stale-AllAbort
            (record {
              latest_version = advance c.latest_version seq req.write_set;
              commit_seq = seq;
            })
            s' req seq qs (λ w written. get-advance c.latest_version seq req.write_set written)
            newer (subst (λ t. All (ReadsWritten t req) qs) (sym same) reads),
      )

  -- The epoch certifier drops the error: when the store refuses the record of a transaction that
  -- passed both checks, and keeps its table, the transaction is still reported as committed.
  pub certify_txn-drops_error :
      (e : EpochState) (s : S) (req : TxnRequest) (err : String)
      → Epoch.check_reads e.latest_version req.txn_id req.read_set ≡ none
      → Epoch.check_claims e.claimed_keys req.txn_id req.write_set ≡ none
      → (st.apply_commit s (next_record e.commit_seq req)).1 ≡ some err
      → table (st.apply_commit s (next_record e.commit_seq req)).0 ≡ table s
      → let r = Epoch.certify_txn st e s req in
        (r.1 ≡ commit_result req (inc64 e.commit_seq)) × (table r.0.1 ≡ table s)
  unfolding Epoch.certify_txn Epoch.commit_writes
  certify_txn-drops_error e s req err valid free refused same =
      rw (valid, Epoch.certify_txn)
        (rw (free, Epoch.certify_txn) (rw stamp_writes-stamp (refl, same)))
