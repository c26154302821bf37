-- ===== src/Ccaas/Outcome.antt =====
-- The two ways in which a certifier may decide a transaction, as the table shows them.
use ccas.Common.{ℕ, ◌+◌, ◌≤◌, ◌<◌, String, ◌≡◌, ◌⊎◌, true, false, some, All, u64_mod}
use ccas.Types.{TxnRequest, TxnResult}
use ccas.Storage.{Entry}
use ccas.Storage.Contract.{Table, overwrite}
use ccas.Ccaas.Versions.{stamp, IsCurrent}
use ccas.Ccaas.{Certifier}

abbrev pub commit_result : TxnRequest → ℕ → TxnResult
commit_result req seq = record {
  txn_id = req.txn_id;
  committed = true;
  commit_seq = seq;
  reason = "";
}

-- From table `t` and counter `seq` the request commits: every read is current, and the table is
-- overwritten under the next number.
pub record Commits (t : Table) (seq : ℕ) (req : TxnRequest) (seq' : ℕ) (t' : Table)
    (res : TxnResult) : Type 0 where
  pub current : All (IsCurrent t) req.read_set
  pub result : res ≡ commit_result req (seq + 1)
  pub counter : seq' ≡ seq + 1
  pub written : t' ≡ overwrite t (stamp (seq + 1) req.write_set)

-- The result is an abort for the request.
pub record Aborts (req : TxnRequest) (res : TxnResult) : Type 0 where
  pub id : res.txn_id ≡ req.txn_id
  pub refused : res.committed ≡ false
  pub no_number : res.commit_seq ≡ 0

-- The behaviour that a client of a `Certifier` may rely on, over a store whose table is `table`.
pub record CertifierLaws {C S : Type 0} (cert : Certifier C S) (table : S → Table) : Type 1 where
  pub InStep : C → S → Type 0
  pub counter : C → ℕ
  pub bounds :
      (c : C) (s : S)
      → InStep c s
      → (k : String) (e : Entry) → table s k ≡ some e
      → (0 < e.version) × (e.version ≤ counter c)
  pub InStep-same : (c : C) (s s' : S) → table s' ≡ table s → InStep c s → InStep c s'
  pub keeps :
      (c : C) (s : S) (req : TxnRequest)
      → InStep c s
      → counter c + 1 < u64_mod
      → let r = cert.submit_commit c s req in InStep r.0.0 r.0.1
  pub decides :
      (c : C) (s : S) (req : TxnRequest)
      → InStep c s
      → counter c + 1 < u64_mod
      → let r = cert.submit_commit c s req in
        Commits (table s) (counter c) req (counter r.0.0) (table r.0.1) r.1
        ⊎ (Aborts req r.1
            × (table r.0.1 ≡ table s)
            × (counter r.0.0 ≡ counter c)
            × ¬ All (IsCurrent (table s)) req.read_set)
  pub syncs :
      (c : C) (s : S)
      → InStep c s
      → let r = cert.sync_from_storage c s in
        InStep r.0 r.1 × (counter r.0 ≡ counter c) × (table r.1 ≡ table s)
