-- ===== src/Grpc/Laws.antt =====
-- Over a connection that loses nothing, the remote store and certifier keep the contracts of the
-- ones behind it.
use mathlib.Core.Option
use ccas.Common.{All, ◌+◌, ◌<◌, String, ◌≡◌, sym, ap, ◌∙◌, Option, [], arith, u64_mod, ◌⊎◌}
use ccas.Dict
use ccas.Dict.{Dict, get-copy_range, copy_range-Distinct}
use ccas.Types.{TxnRequest, ReadResult}
use ccas.Storage.{Entry, Store}
use ccas.Storage.Contract.{Table, StoreLaws, found_entry}
use ccas.Ccaas.Versions.{IsCurrent}
use ccas.Ccaas.{Certifier}
use ccas.Ccaas.Outcome.{CertifierLaws, Commits, Aborts}
use ccas.Grpc.{Transport, Delivers}
use ccas.Grpc.Certifying.{submit_remote, sync_remote, grpc_certifier}
use ccas.Grpc.Storing.{shown_entry, dumped_entry, dump_remote, grpc_store}
use ccas.Grpc.Delivered.{
  ShowsErrors, submit_remote-delivered, sync_remote-delivered, get_remote-delivered,
  apply_remote-delivered, load_remote-delivered, dump_remote-delivered,
}

-- What reaches the client of a dump that shows entry `o`.
shown_dump :
    (m : Dict ReadResult) (o : Option Entry) (k : String)
    → Dict.get m k ≡ Option.map found_entry o
    → Dict.get (Dict.copy_range shown_entry (Dict.copy_range dumped_entry m []) []) k
      ≡ Option.map found_entry o
unfolding shown_entry dumped_entry Dict.get
shown_dump m o k e = ground (
  arith,
  get-copy_range dumped_entry m [] k,
  get-copy_range shown_entry (Dict.copy_range dumped_entry m []) [] k,
)

module _ {N S : Type 0} (t : Transport N) (st : Store S) (laws : StoreLaws st) (ok : Delivers t)
    (shows : ShowsErrors st) where
  -- The table behind the connection.
  abbrev pub remote_table : N × S → Table
  remote_table p = laws.table p.1

  pub dump_remote-result :
      (p : N × S) (k : String)
      → Dict.get (dump_remote t st p).1 k ≡ Option.map found_entry (remote_table p k)
  dump_remote-result (n, s) k =
      rw (dump_remote-delivered t st n s (ok n))
        (shown_dump (st.dump_state s).1 (laws.table s k) k (laws.dump-result s k))

  pub dump_remote-Distinct : (p : N × S) → Dict.Distinct (dump_remote t st p).1
  dump_remote-Distinct (n, s) =
      rw (dump_remote-delivered t st n s (ok n)) (copy_range-Distinct shown_entry _ [] tt)

  abbrev pub grpc_store_laws : StoreLaws (grpc_store t st)
  grpc_store_laws = record {
    table = remote_table;
    get-result =
        λ p k. ap (λ r. r.1) (get_remote-delivered t st p.0 p.1 (ok p.0) k) ∙ laws.get-result p.1 k;
    get-table = λ p k.
        ap (λ r. remote_table r.0) (get_remote-delivered t st p.0 p.1 (ok p.0) k)
        ∙ laws.get-table p.1 k;
    apply-accepts = λ p r h.
        ap (λ x. x.1) (apply_remote-delivered t st p.0 p.1 (ok p.0) r shows)
        ∙ laws.apply-accepts p.1 r h;
    apply-table = λ p r h.
        let e = apply_remote-delivered t st p.0 p.1 (ok p.0) r shows in
        ap (λ x. remote_table x.0) e ∙ laws.apply-table p.1 r (sym (ap (λ x. x.1) e) ∙ h);
    apply-refuses = λ p r h.
        let e = apply_remote-delivered t st p.0 p.1 (ok p.0) r shows in
        let (stale, same) = laws.apply-refuses p.1 r (λ x. h (ap (λ y. y.1) e ∙ x)) in
        (stale, ap (λ x. remote_table x.0) e ∙ same);
    load-table = λ p d.
        ap remote_table (load_remote-delivered t st p.0 p.1 (ok p.0) d) ∙ laws.load-table p.1 d;
    dump-result = dump_remote-result;
    dump-Distinct = dump_remote-Distinct;
    dump-table = λ p.
        ap (λ r. remote_table r.0) (dump_remote-delivered t st p.0 p.1 (ok p.0))
        ∙ laws.dump-table p.1;
  }

module _ {N C S : Type 0} (t : Transport N) (cert : Certifier C S) (table : S → Table)
    (laws : CertifierLaws cert table) (ok : Delivers t) where
  open laws use {InStep, counter}

  pub submit_remote-keeps :
      (p : N × C) (s : S) (req : TxnRequest)
      → InStep p.1 s
      → counter p.1 + 1 < u64_mod
      → let r = submit_remote t cert p s req in InStep r.0.0.1 r.0.1
  submit_remote-keeps (n, c) s req h room =
      rw (submit_remote-delivered t cert n c s req (ok n)) (laws.keeps c s req h room)

  pub submit_remote-decides :
      (p : N × C) (s : S) (req : TxnRequest)
      → InStep p.1 s
      → counter p.1 + 1 < u64_mod
      → let r = submit_remote t cert p s req in
        Commits (table s) (counter p.1) req (counter r.0.0.1) (table r.0.1) r.1
        ⊎ (Aborts req r.1
            × (table r.0.1 ≡ table s)
            × (counter r.0.0.1 ≡ counter p.1)
            × ¬ All (IsCurrent (table s)) req.read_set)
  submit_remote-decides (n, c) s req h room =
      rw (submit_remote-delivered t cert n c s req (ok n)) (laws.decides c s req h room)

  pub sync_remote-stays :
      (p : N × C) (s : S)
      → InStep p.1 s
      → let r = sync_remote t cert p s in
        InStep r.0.1 r.1 × (counter r.0.1 ≡ counter p.1) × (table r.1 ≡ table s)
  sync_remote-stays (n, c) s h = rw (sync_remote-delivered t cert n c s (ok n)) (laws.syncs c s h)

  abbrev pub grpc_certifier_laws : CertifierLaws (grpc_certifier t cert) table
  grpc_certifier_laws = record {
    InStep = λ p s. InStep p.1 s;
    counter = λ p. counter p.1;
    bounds = λ p s h k e f. laws.bounds p.1 s h k e f;
    InStep-same = λ p s s' e h. laws.InStep-same p.1 s s' e h;
    keeps = submit_remote-keeps;
    decides = submit_remote-decides;
    syncs = sync_remote-stays;
  }
