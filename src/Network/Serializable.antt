-- ===== src/Network/Serializable.antt =====
-- What the certifier commits is serializable, whatever the connections lose.
use ccas.Common.{
  ℕ, ◌+◌, ◌≤◌, ◌<◌, String, ◌≡◌, refl, sym, subst, inl, inr, List, [], ◌∷◌, ◌++◌, ◌&&◌, arith,
  length, All, All-append, set_elem-All, All-get_elem?, get_elem?, Option-cases, if◌then◌else◌,
  u64_mod,
}
use ccas.Dict
use ccas.Storage.{Store}
use ccas.Storage.Contract.{StoreLaws}
use ccas.Ccaas.{Certifier}
use ccas.Ccaas.Outcome.{CertifierLaws}
use ccas.Execution
use ccas.Execution.{request}
use ccas.World.{Client, Event, begins, reads, writes, commits, aborts, syncs}
use ccas.World.Serial.{Values, value_at, Serial}
use ccas.World.Invariant.{ClientOk}
use ccas.World.Settling.{done_of}
use ccas.World.Calls.{write_client-ClientOk, abort_client-ClientOk}
use ccas.Grpc.{Transport}
use ccas.Grpc.Certifying.{submit_remote}
use ccas.Network.{
  Network, arrives, put_client, begin_step, read_step, commits_there, commit_step, sync_step,
  at_client, step, run,
}
use ccas.Network.Reads.{read-ClientOk}
use ccas.Network.Decisions.{
  finish-ClientOk, submit_remote-state, sync_remote-state, Holds, submit-Holds, sync-Holds,
}

module _ {N M C S : Type 0} (t : Transport N) (st : Store S) (u : Transport M)
    (cert : Certifier C S) (laws : StoreLaws st) (decisions : CertifierLaws cert laws.table) where
  open laws use {table}
  open decisions use {InStep, counter}

  abbrev NetworkOk : Values → Network N M C S → Type 0
  NetworkOk v w = Holds cert table decisions v w.clients w.history (w.cert, w.store)

  -- After a step that takes at most one number.
  abbrev StepOk : Values → Network N M C S → Network N M C S → Type 0
  StepOk v w w' = NetworkOk v w' × (counter w'.cert ≤ counter w.cert + 1)

  begin_step-Ok :
      (v : Values) (w : Network N M C S) → NetworkOk v w → StepOk v w (begin_step t st u cert w)
  unfolding begin_step Execution.begin Dict.get
  begin_step-Ok v w ok = (
    record {
      in_step = ok.in_step;
      all_ok =
          All-append (ClientOk (table w.store)) w.clients _ ok.all_ok
            (record { noted = λ k ver e. absurd (cc); tracked = tt }, tt);
      serial = ok.serial;
    },
    omega arith,
  )

  sync_step-Ok :
      (v : Values) (w : Network N M C S) → NetworkOk v w → StepOk v w (sync_step t st u cert w)
  unfolding sync_step
  sync_step-Ok v w ok =
      subst
        (λ (p : C × S).
          Holds cert table decisions v w.clients w.history p × (counter p.0 ≤ counter w.cert + 1))
        (sym (sync_remote-state u cert w.wire w.cert w.store))
        (let (holds, still) =
            sync-Holds cert table decisions v w.clients w.history w.cert w.store
              (arrives (u.next w.wire).1) ok in
          (holds, omega (arith, still)))

  module _ (v : Values) (w : Network N M C S) (i : ℕ) (cl : Client) (ok : NetworkOk v w)
      (here : ClientOk (table w.store) cl) where
    put_client-Ok : (cl' : Client) → ClientOk (table w.store) cl' → StepOk v w (put_client w i cl')
    put_client-Ok cl' good = (
      record {
        in_step = ok.in_step;
        all_ok = set_elem-All (ClientOk (table w.store)) w.clients i cl' good ok.all_ok;
        serial = ok.serial;
      },
      omega arith,
    )

    read_step-Ok : (key : String) → StepOk v w (read_step t st u cert w i key cl)
    unfolding read_step
    read_step-Ok key =
        let (same, good) =
          read-ClientOk t st laws w.link w.store key
            (λ e h. (decisions.bounds w.cert w.store ok.in_step key e h).0) cl here in
        (
          record {
            in_step = decisions.InStep-same w.cert w.store _ same ok.in_step;
            all_ok = rw same (set_elem-All (ClientOk (table w.store)) w.clients i _ good ok.all_ok);
            serial = rw same ok.serial;
          },
          omega arith,
        )

    commit_step-Ok : counter w.cert + 1 < u64_mod → StepOk v w (commit_step t st u cert w i cl)
    unfolding commit_step Execution.commit commits_there
    commit_step-Ok room = elim (Option-cases (Execution.check_active cl.txn)) [
      | inr (err, e) ↦ rw (e, commit_step, Execution.commit, commits_there) (put_client-Ok cl here)
      | inl active ↦
          let there = arrives (u.next w.wire).1 in
          let d = cert.submit_commit w.cert w.store (request cl.txn) in
          let history =
            if there && d.1.committed then w.history ++ done_of cl ∷ [] else w.history in
          let (holds, good, low) =
            subst
              (λ (p : C × S).
                Holds cert table decisions v w.clients history p
                × ClientOk (table p.1) cl
                × (counter p.0 ≤ counter w.cert + 1))
              (sym (submit_remote-state u cert w.wire w.cert w.store (request cl.txn)))
              (submit-Holds cert table decisions v w.clients w.history w.cert w.store cl there room
                here ok) in
          rw (active, commit_step, Execution.commit, commits_there)
            (
              record {
                in_step = holds.in_step;
                all_ok =
                    set_elem-All (ClientOk _) w.clients i _
                      (finish-ClientOk _ cl
                        (submit_remote u cert (w.wire, w.cert) w.store (request cl.txn)).1 good)
                      holds.all_ok;
                serial = holds.serial;
              },
              low,
            )
    ]

  at_client-Ok :
      (v : Values) (w : Network N M C S) (i : ℕ) (f : Client → Network N M C S)
      → NetworkOk v w
      → ((cl : Client) → ClientOk (table w.store) cl → StepOk v w (f cl))
      → StepOk v w (at_client t st u cert w i f)
  at_client-Ok v w i f ok h = elim (Option-cases (get_elem? w.clients i)) [
    | inl e ↦ rw (e, at_client) (ok, omega arith)
    | inr (cl, e) ↦
        rw (e, at_client) (h cl (All-get_elem? (ClientOk (table w.store)) w.clients i ok.all_ok e))
  ]

  step-Ok :
      (v : Values) (w : Network N M C S) (e : Event)
      → counter w.cert + 1 < u64_mod
      → NetworkOk v w
      → StepOk v w (step t st u cert w e)
  unfolding step
  step-Ok v w begins room ok = begin_step-Ok v w ok
  step-Ok v w (reads i key) room ok =
      at_client-Ok v w i _ ok (λ cl h. read_step-Ok v w i cl ok h key)
  step-Ok v w (writes i key value) room ok =
      at_client-Ok v w i _ ok (λ cl h.
        put_client-Ok v w i cl ok h _ (write_client-ClientOk (table w.store) key value cl h))
  step-Ok v w (commits i) room ok =
      at_client-Ok v w i _ ok (λ cl h. commit_step-Ok v w i cl ok h room)
  step-Ok v w (aborts i) room ok =
      at_client-Ok v w i _ ok
        (λ cl h. put_client-Ok v w i cl ok h _ (abort_client-ClientOk (table w.store) cl h))
  step-Ok v w syncs room ok = sync_step-Ok v w ok

  run-Ok :
      (v : Values) (w : Network N M C S) (es : List Event)
      → counter w.cert + length es < u64_mod
      → NetworkOk v w
      → NetworkOk v (run t st u cert w es)
  unfolding run
  run-Ok v w [] room ok = ok
  run-Ok v w (e ∷ es) room ok =
      let (ok', low) = step-Ok v w e (omega arith) ok in
      run-Ok v (step t st u cert w e) es (omega (arith, low)) ok'

  -- Whatever requests and responses the connections of the engine lose, and whatever calls its
  -- clients make in whatever order, the transactions that the certifier commits, in the order of
  -- their commits, are a serial execution from the first values of the store to the last: the
  -- first read of each key returned the value that it has when the transaction runs alone at its
  -- commit. At the start there is no transaction, the certifier is in step with the store, and its
  -- counter stays below the last uint64.
  pub lossy_run-Serial :
      (w : Network N M C S) (es : List Event)
      → InStep w.cert w.store
      → w.clients ≡ []
      → w.history ≡ []
      → counter w.cert + length es < u64_mod
      → let w' = run t st u cert w es in
        Serial (value_at (table w.store)) w'.history (value_at (table w'.store))
  lossy_run-Serial w es h none_yet nothing room =
      (run-Ok (value_at (table w.store)) w es room (record {
        in_step = h;
        all_ok = subst (All (ClientOk (table w.store))) (sym none_yet) tt;
        serial =
            subst (λ x. Serial (value_at (table w.store)) x (value_at (table w.store)))
              (sym nothing) refl;
      })).serial
