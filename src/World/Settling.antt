-- ===== src/World/Settling.antt =====
-- What a certifier's decision does to the clients' records and to the serial execution.
use ccas.Common.{
  ℕ, ◌+◌, ◌≤◌, String, ◌≡◌, refl, sym, subst, some, List, [], ◌∷◌, ◌++◌, arith, All, All-map,
  set_elem, set_elem-All, if◌then◌else◌,
}
use ccas.Types.{TxnResult}
use ccas.Storage.{Entry}
use ccas.Storage.Contract.{Table}
use ccas.Ccaas.Outcome.{Commits, Aborts}
use ccas.Execution.{request, finish}
use ccas.World.{Client, Done}
use ccas.World.Serial.{Values, value_at, Serial, Serial-append, value_at-overwrite}
use ccas.World.Invariant.{
  ClientOk, ClientOk-same, Later-ClientOk, overwrite-Later, Tracked-IsCurrent,
}

-- The transaction as it enters the history.
abbrev pub done_of : Client → Done
done_of cl = record { reads = cl.seen; writes = cl.txn.write_set }

-- The client once the result has reached it.
abbrev pub settled : Client → TxnResult → Client
settled cl res = record cl { txn = finish cl.txn res }

module _ (v : Values) (t t' : Table) (clients : List Client) (history : List Done) (i : ℕ)
    (cl : Client) (res : TxnResult) (here : ClientOk t cl) (all_ok : All (ClientOk t) clients)
    (serial : Serial v history (value_at t)) where
  -- Every client's record and the serial execution, after the result.
  abbrev pub Settles : Type 0
  Settles =
      All (ClientOk t') (set_elem clients i (settled cl res))
      × Serial v (if res.committed then history ++ done_of cl ∷ [] else history) (value_at t')

  pub Commits-Settles :
      {seq seq' : ℕ}
      → ((k : String) (e : Entry) → t k ≡ some e → e.version ≤ seq)
      → Commits t seq (request cl.txn) seq' t' res
      → Settles
  Commits-Settles {seq} below cm =
      let later =
        overwrite-Later t (seq + 1) cl.txn.write_set (λ k e p. omega (arith, below k e p))
          (omega arith) in
      rw (cm.result, cm.written)
        (
          set_elem-All (ClientOk _) clients i _
              (ClientOk-same _ cl.seen refl refl (Later-ClientOk later here))
              (All-map clients (λ c h. Later-ClientOk later h) all_ok),
          subst (Serial v _) (sym (value_at-overwrite t (seq + 1) cl.txn.write_set)) (
              Serial-append v history (value_at t) _ serial
                (Tracked-IsCurrent t cl.txn cl.seen cm.current here.tracked)),
        )

  pub Aborts-Settles : Aborts (request cl.txn) res → t' ≡ t → Settles
  Aborts-Settles ab same =
      rw (same, ab.refused)
        (
          set_elem-All (ClientOk t) clients i _ (ClientOk-same t cl.seen refl refl here) all_ok,
          serial,
        )
