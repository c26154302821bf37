-- ===== src/Network/Decisions.antt =====
-- A commit over a connection that may lose it: what the certifier has decided, and what the client
-- is told.
use ccas.Common.{
  ℕ, ◌+◌, ◌≤◌, ◌<◌, String, ◌≡◌, refl, sym, subst, inl, inr, Bool, true, false, some, List, [], ◌∷◌,
  ◌++◌, ◌&&◌, arith, All, All-map, if◌then◌else◌, u64_mod,
}
use ccas.Types.{TxnRequest, TxnResult}
use ccas.Storage.{Entry}
use ccas.Storage.Contract.{Table}
use ccas.Ccaas.{Certifier}
use ccas.Ccaas.Outcome.{CertifierLaws, Commits}
use ccas.Execution.{request, finish}
use ccas.World.{Client, Done}
use ccas.World.Serial.{Values, value_at, Serial}
use ccas.World.Invariant.{ClientOk, ClientOk-same, Later, Later-ClientOk, overwrite-Later}
use ccas.World.Settling.{done_of, Commits-Settles, Aborts-Settles}
use ccas.Grpc.{Transport, Fate, delivered, lost_request, lost_response, under, remote}
use ccas.Grpc.Certifying.{encode_request, submit_remote, sync_remote, serve_submit, serve_sync}
use ccas.Grpc.Delivered.{decode_request-encode_request}
use ccas.Network.{arrives}

-- The client's record, whatever it is told.
pub finish-ClientOk :
    (t : Table) (cl : Client) (res : TxnResult)
    → ClientOk t cl
    → ClientOk t (record cl { txn = finish cl.txn res })
finish-ClientOk t cl res ok = ClientOk-same t cl.seen (ground arith) (ground arith) ok

Commits-Later :
    (t t' : Table) {seq seq' : ℕ} {req : TxnRequest} {res : TxnResult}
    → ((k : String) (e : Entry) → t k ≡ some e → e.version ≤ seq)
    → Commits t seq req seq' t' res
    → Later t t'
Commits-Later t t' {seq} {seq'} {req} below cm =
    subst (Later t) (sym cm.written) (
      overwrite-Later t (seq + 1) req.write_set (λ k e p. omega (arith, below k e p)) (omega arith))

module _ {M C S : Type 0} (u : Transport M) (cert : Certifier C S) where
  -- The certifier and the store have moved if the call has arrived, and only then.
  pub submit_remote-state :
      (m : M) (c : C) (s : S) (req : TxnRequest)
      → let r = submit_remote u cert (m, c) s req in
        (r.0.0.1, r.0.1) ≡ (if arrives (u.next m).1 then (cert.submit_commit c s req).0 else (c, s))
  unfolding submit_remote remote under serve_submit
  submit_remote-state m c s req = at_fate (u.next m).1
    where
      at_fate :
          (fate : Fate)
          → (under fate (serve_submit cert) (c, s) (encode_request req)).0
            ≡ (if arrives fate then (cert.submit_commit c s req).0 else (c, s))
      at_fate delivered = rw decode_request-encode_request refl
      at_fate (lost_request err) = refl
      at_fate (lost_response err) = rw decode_request-encode_request refl

  pub sync_remote-state :
      (m : M) (c : C) (s : S)
      → let r = sync_remote u cert (m, c) s in
        (r.0.1, r.1) ≡ (if arrives (u.next m).1 then cert.sync_from_storage c s else (c, s))
  unfolding sync_remote remote under serve_sync
  sync_remote-state m c s = at_fate (u.next m).1
    where
      at_fate :
          (fate : Fate)
          → (under fate (serve_sync cert) (c, s) tt).0
            ≡ (if arrives fate then cert.sync_from_storage c s else (c, s))
      at_fate delivered = refl
      at_fate (lost_request err) = refl
      at_fate (lost_response err) = refl

module _ {C S : Type 0} (cert : Certifier C S) (table : S → Table)
    (decisions : CertifierLaws cert table) where
  open decisions use {InStep, counter}

  -- The certifier and the store, the clients' records and the serial execution.
  pub record Holds (v : Values) (clients : List Client) (history : List Done) (p : C × S)
      : Type 0 where
    pub in_step : InStep p.0 p.1
    pub all_ok : All (ClientOk (table p.1)) clients
    pub serial : Serial v history (value_at (table p.1))

  -- What a call of `SubmitCommit` does, if it arrives.
  pub submit-Holds :
      (v : Values) (clients : List Client) (history : List Done) (c : C) (s : S) (cl : Client)
      (there : Bool)
      → counter c + 1 < u64_mod
      → ClientOk (table s) cl
      → Holds v clients history (c, s)
      → let d = cert.submit_commit c s (request cl.txn) in
        let p = if there then d.0 else (c, s) in
        Holds v clients (if there && d.1.committed then history ++ done_of cl ∷ [] else history) p
        × ClientOk (table p.1) cl
        × (counter p.0 ≤ counter c + 1)
  submit-Holds v clients history c s cl false room here ok = (ok, here, omega arith)
  submit-Holds v clients history c s cl true room here ok =
      let d = cert.submit_commit c s (request cl.txn) in
      let kept = decisions.keeps c s (request cl.txn) ok.in_step room in
      let bounded = λ (k : String) (e : Entry) (p : table s k ≡ some e).
        (decisions.bounds c s ok.in_step k e p).1 in
      elim (decisions.decides c s (request cl.txn) ok.in_step room) [
        | inl cm ↦
            let later = Commits-Later (table s) (table d.0.1) bounded cm in
            let (_, serial) =
              Commits-Settles v (table s) (table d.0.1) [] history 0 cl d.1 here tt ok.serial
                bounded cm in
            (
              record {
                in_step = kept;
                all_ok = All-map clients (λ x h. Later-ClientOk later h) ok.all_ok;
                serial = serial;
              },
              Later-ClientOk later here,
              omega (arith, cm.counter),
            )
        | inr (ab, same, still, _) ↦
            let (_, serial) =
              Aborts-Settles v (table s) (table d.0.1) [] history 0 cl d.1 here tt ok.serial ab
                same in
            (
              record {
                in_step = kept;
                all_ok = subst (λ t. All (ClientOk t) clients) (sym same) ok.all_ok;
                serial = serial;
              },
              subst (λ t. ClientOk t cl) (sym same) here,
              omega (arith, still),
            )
      ]

  pub sync-Holds :
      (v : Values) (clients : List Client) (history : List Done) (c : C) (s : S) (there : Bool)
      → Holds v clients history (c, s)
      → let p = if there then cert.sync_from_storage c s else (c, s) in
        Holds v clients history p × (counter p.0 ≡ counter c)
  sync-Holds v clients history c s false ok = (ok, refl)
  sync-Holds v clients history c s true ok =
      let (in_step, still, same) = decisions.syncs c s ok.in_step in
      (
        record {
          in_step = in_step;
          all_ok = subst (λ t. All (ClientOk t) clients) (sym same) ok.all_ok;
          serial = subst (λ t. Serial v history (value_at t)) (sym same) ok.serial;
        },
        still,
      )
