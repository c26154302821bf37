-- ===== src/Ccaas/Immediate/Laws.antt =====
-- What `ImmediateCertifier` decides, over any store that keeps its contract.
use ccas.Common.{
  ℕ, ◌+◌, ◌≤◌, ◌<◌, String, ◌≡◌, refl, subst, sym, ◌∙◌, ap, ◌⊎◌, inl, inr, none, some, List, [],
  ◌∷◌, arith, All, Option-cases, u64_mod, inc64_of_lt,
}
use ccas.Dict.{Dict}
use ccas.Types.{ReadEntry, TxnRequest, TxnResult}
use ccas.Storage.{Entry, Store}
use ccas.Storage.Contract.{Table, StoreLaws}
use ccas.Ccaas.Outcome.{Commits, Aborts, CertifierLaws}
use ccas.Ccaas.Versions.{
  scan_versions, stamp, IsCurrent, Coupled, Coupled-mono, Coupled-advance, stamp-IsFresh,
  scan_versions-Coupled, scan_versions-le, dumped-le,
}
use ccas.Ccaas.Immediate.{
  ImmediateCertifier, check_reads, commit_writes, submit_commit, new_immediate_certifier,
  sync_from_storage, immediate_certifier,
}

module _ {latest : Dict ℕ} {seq : ℕ} {t : Table} (c : Coupled latest seq t) (txn_id : String) where
  pub check_reads-All :
      (reads : List ReadEntry) → check_reads latest txn_id reads ≡ none → All (IsCurrent t) reads
  unfolding check_reads
  check_reads-All [] h = tt
  check_reads-All (r ∷ rs) h =
      (ground (arith, c.agrees r.key), check_reads-All rs (ground (arith, c.agrees r.key)))

  pub All-check_reads :
      (reads : List ReadEntry) → All (IsCurrent t) reads → check_reads latest txn_id reads ≡ none
  unfolding check_reads
  All-check_reads [] h = refl
  All-check_reads (r ∷ rs) h = ground (arith, c.agrees r.key, All-check_reads rs h.1)

pub check_reads-Aborts :
    (latest : Dict ℕ) (req : TxnRequest) (reads : List ReadEntry) (res : TxnResult)
    → check_reads latest req.txn_id reads ≡ some res
    → Aborts req res
unfolding check_reads
check_reads-Aborts latest req [] res h = absurd (cc)
check_reads-Aborts latest req (r ∷ rs) res h = ground (arith, check_reads-Aborts latest req rs res)

module _ {S : Type 0} (st : Store S) (laws : StoreLaws st) where
  open laws use {table}

  -- The certifier's map and counter are in lockstep with the store.
  abbrev pub InStep : ImmediateCertifier → S → Type 0
  InStep c s = Coupled c.latest_version c.commit_seq (table s)

  -- Under a fresh number the store takes the writes.
  accepts :
      (c : ImmediateCertifier) (s : S) (req : TxnRequest)
      → InStep c s
      → (st.apply_commit s (record {
        commit_seq = c.commit_seq + 1;
        txn_id = req.txn_id;
        writes = stamp (c.commit_seq + 1) req.write_set;
      })).1
        ≡ none
  accepts c s req h = laws.apply-accepts s _ (
      stamp-IsFresh (c.commit_seq + 1) (table s) req.write_set
        (λ k e p. omega (arith, h.bounded k e p)))

  commit_writes-Commits :
      (c : ImmediateCertifier) (s : S) (req : TxnRequest)
      → InStep c s
      → c.commit_seq + 1 < u64_mod
      → All (IsCurrent (table s)) req.read_set
      → let r = commit_writes st c s req in
        InStep r.0.0 r.0.1 × Commits (table s) c.commit_seq req r.0.0.commit_seq (table r.0.1) r.1
  unfolding commit_writes
  commit_writes-Commits c s req h room cur =
      let taken = accepts c s req h in
      rw (inc64_of_lt c.commit_seq room, taken)
        (
          rw (laws.apply-table s _ taken) (
              Coupled-advance c.latest_version (table s) req.write_set (omega arith)
                (Coupled-mono (omega arith) h)),
          record {
            current = cur;
            result = refl;
            counter = refl;
            written = laws.apply-table s _ taken;
          },
        )

  -- In step with the store and below the last uint64, a transaction commits exactly if every
  -- version that it read is still the one in the store. Then its writes reach the store under the
  -- next number and the certifier stays in step; otherwise the result is an abort and nothing
  -- changes.
  pub submit_commit-decides :
      (c : ImmediateCertifier) (s : S) (req : TxnRequest)
      → InStep c s
      → c.commit_seq + 1 < u64_mod
      → let r = submit_commit st c s req in
        (InStep r.0.0 r.0.1 × Commits (table s) c.commit_seq req r.0.0.commit_seq (table r.0.1) r.1)
        ⊎ ((¬ All (IsCurrent (table s)) req.read_set) × Aborts req r.1 × (r.0 ≡ (c, s)))
  unfolding submit_commit
  submit_commit-decides c s req h room =
      elim (Option-cases (check_reads c.latest_version req.txn_id req.read_set)) [
        | inl e ↦
            rw (e, submit_commit)
              (inl (
                commit_writes-Commits c s req h room (check_reads-All h req.txn_id req.read_set e)))
        | inr (res, e) ↦
            rw (e, submit_commit)
              (inr (
                λ a. cc (All-check_reads h req.txn_id req.read_set a),
                check_reads-Aborts c.latest_version req req.read_set res e,
                refl,
              ))
      ]

  -- The constructor reads a lockstep state off any store whose versions are positive, and leaves
  -- the store alone.
  pub new_immediate_certifier-InStep :
      (s : S)
      → ((k : String) (e : Entry) → table s k ≡ some e → 0 < e.version)
      → let r = new_immediate_certifier st s in InStep r.0 r.1 × (table r.1 ≡ table s)
  unfolding new_immediate_certifier
  new_immediate_certifier-InStep s pos = (
    rw (laws.dump-table s) (
        scan_versions-Coupled (st.dump_state s).1 (table s) _ (laws.dump-result s) pos
          (omega arith)),
    laws.dump-table s,
  )

  -- Whatever the certifier held before, SyncFromStorage brings it in step with a store whose
  -- versions are positive; the counter never goes back and the store keeps its table.
  pub sync_from_storage-InStep :
      (c : ImmediateCertifier) (s : S)
      → ((k : String) (e : Entry) → table s k ≡ some e → 0 < e.version)
      → let r = sync_from_storage st c s in
        InStep r.0 r.1 × (c.commit_seq ≤ r.0.commit_seq) × (table r.1 ≡ table s)
  unfolding sync_from_storage
  sync_from_storage-InStep c s pos = (
    rw (laws.dump-table s) (
        scan_versions-Coupled (st.dump_state s).1 (table s) _ (laws.dump-result s) pos
          (ground arith)),
    ground arith,
    laws.dump-table s,
  )

  -- The counters that are read off a store are no larger than its versions.
  scan_dump-le :
      (s : S) (n : ℕ)
      → ((k : String) (e : Entry) → table s k ≡ some e → e.version ≤ n)
      → (scan_versions (st.dump_state s).1).1 ≤ n
  scan_dump-le s n h =
      scan_versions-le _ n (laws.dump-Distinct s)
        (λ k r e. dumped-le (table s k) r _ (h k) (sym (laws.dump-result s k) ∙ e))

  pub new_immediate_certifier-le :
      (s : S) (n : ℕ)
      → ((k : String) (e : Entry) → table s k ≡ some e → e.version ≤ n)
      → (new_immediate_certifier st s).0.commit_seq ≤ n
  unfolding new_immediate_certifier
  new_immediate_certifier-le s n h = scan_dump-le s n h

  pub sync_from_storage-le :
      (c : ImmediateCertifier) (s : S) (n : ℕ)
      → c.commit_seq ≤ n
      → ((k : String) (e : Entry) → table s k ≡ some e → e.version ≤ n)
      → (sync_from_storage st c s).0.commit_seq ≤ n
  unfolding sync_from_storage
  sync_from_storage-le c s n le h = ground (arith, scan_dump-le s n h)

  -- In lockstep already, `SyncFromStorage` changes neither the counter nor the store.
  pub sync_from_storage-keeps :
      (c : ImmediateCertifier) (s : S)
      → InStep c s
      → let r = sync_from_storage st c s in
        InStep r.0 r.1 × (r.0.commit_seq ≡ c.commit_seq) × (table r.1 ≡ table s)
  unfolding sync_from_storage
  sync_from_storage-keeps c s h =
      let (step, _, same) = sync_from_storage-InStep c s h.positive in
      let le = scan_dump-le s c.commit_seq h.bounded in (step, ground arith, same)

  -- The immediate certifier keeps the contract of the interface.
  abbrev pub immediate_laws : CertifierLaws (immediate_certifier st) table
  immediate_laws = record {
    InStep = InStep;
    counter = λ c. c.commit_seq;
    bounds = λ c s h k e p. (h.positive k e p, h.bounded k e p);
    InStep-same = λ c s s' e h. subst (Coupled c.latest_version c.commit_seq) (sym e) h;
    keeps = λ c s req h room. elim (submit_commit-decides c s req h room) [
      | inl a ↦ a.0
      | inr a ↦ rw a.2 h
    ];
    decides = λ c s req h room. elim (submit_commit-decides c s req h room) [
      | inl a ↦ inl a.1
      | inr a ↦ inr (a.1, ap (λ p. table p.1) a.2, ap (λ p. p.0.commit_seq) a.2, a.0)
    ];
    syncs = sync_from_storage-keeps;
  }
