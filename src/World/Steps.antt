-- ===== src/World/Steps.antt =====
-- What holds of the engine's clients, the certifier and the store between two calls.
use ccas.Common.{
  ℕ, ◌+◌, ◌<◌, String, ◌≡◌, inl, inr, some, [], ◌∷◌, ◌++◌, All, All-append, set_elem-All,
  All-get_elem?, get_elem?, set_elem, Option-cases, if◌then◌else◌, u64_mod,
}
use ccas.Dict
use ccas.Storage.{Store}
use ccas.Storage.Contract.{StoreLaws}
use ccas.Ccaas.{Certifier}
use ccas.Ccaas.Outcome.{CertifierLaws}
use ccas.Execution
use ccas.Execution.{Txn, request, finish}
use ccas.World.{
  Client, World, Event, begins, reads, writes, commits, aborts, syncs, begin_step, read_step,
  commit_step, sync_step, put_client, at_client, step,
}
use ccas.World.Serial.{Values, value_at, Serial}
use ccas.World.Invariant.{ClientOk}
use ccas.World.Settling.{Commits-Settles, Aborts-Settles}
use ccas.World.Calls.{read_client-ClientOk, write_client-ClientOk, abort_client-ClientOk}

module _ {C S : Type 0} (st : Store S) (laws : StoreLaws st) (cert : Certifier C S)
    (decisions : CertifierLaws cert laws.table) where
  open laws use {table}
  open decisions use {InStep, counter}

  -- The certifier is in step, every client's record is right, and the committed transactions are a
  -- serial execution from `v` to the values in the store.
  pub record WorldOk (v : Values) (w : World C S) : Type 0 where
    pub in_step : InStep w.cert w.store
    pub all_ok : All (ClientOk (table w.store)) w.clients
    pub serial : Serial v w.history (value_at (table w.store))

  begin_step-WorldOk : (v : Values) (w : World C S) → WorldOk v w → WorldOk v (begin_step st cert w)
  unfolding begin_step Execution.begin Dict.get
  begin_step-WorldOk v w ok = record {
    in_step = ok.in_step;
    all_ok =
        All-append (ClientOk (table w.store)) w.clients _ ok.all_ok
          (record { noted = λ k ver e. absurd (cc); tracked = tt }, tt);
    serial = ok.serial;
  }

  sync_step-WorldOk : (v : Values) (w : World C S) → WorldOk v w → WorldOk v (sync_step st cert w)
  unfolding sync_step
  sync_step-WorldOk v w ok =
      let (in_step, _, same) = decisions.syncs w.cert w.store ok.in_step in
      record { in_step = in_step; all_ok = rw same ok.all_ok; serial = rw same ok.serial }

  module _ (v : Values) (w : World C S) (i : ℕ) (cl : Client) (ok : WorldOk v w)
      (here : ClientOk (table w.store) cl) where
    put_client-WorldOk :
        (cl' : Client) → ClientOk (table w.store) cl' → WorldOk v (put_client w i cl')
    put_client-WorldOk cl' good = record {
      in_step = ok.in_step;
      all_ok = set_elem-All (ClientOk (table w.store)) w.clients i cl' good ok.all_ok;
      serial = ok.serial;
    }

    read_step-WorldOk : (key : String) → WorldOk v (read_step st cert w i key cl)
    unfolding read_step
    read_step-WorldOk key =
        let (same, good) = read_client-ClientOk st laws w.store key cl here in
        record {
          in_step = decisions.InStep-same w.cert w.store _ same ok.in_step;
          all_ok = rw same (set_elem-All (ClientOk (table w.store)) w.clients i _ good ok.all_ok);
          serial = rw same ok.serial;
        }

    -- The world after a commit, in terms of what the certifier answered.
    committed_world : World C S
    committed_world =
        let (cs, result) = cert.submit_commit w.cert w.store (request cl.txn) in
        record w {
          cert = cs.0;
          store = cs.1;
          clients = set_elem w.clients i (record cl { txn = finish cl.txn result });
          history =
              if result.committed
              then w.history ++ record { reads = cl.seen; writes = cl.txn.write_set } ∷ []
              else w.history;
        }

    committed_world-WorldOk : counter w.cert + 1 < u64_mod → WorldOk v committed_world
    unfolding committed_world
    committed_world-WorldOk room =
        elim (decisions.decides w.cert w.store (request cl.txn) ok.in_step room) [
          | inl cm ↦ ok_with (
              Commits-Settles v (table w.store) _ w.clients w.history i cl _ here ok.all_ok
                ok.serial (λ k e p. (decisions.bounds w.cert w.store ok.in_step k e p).1) cm)
          | inr ab ↦ ok_with (
              Aborts-Settles v (table w.store) _ w.clients w.history i cl _ here ok.all_ok ok.serial
                ab.0 ab.1)
        ]
      where
        ok_with :
            (All (ClientOk (table committed_world.store)) committed_world.clients
              × Serial v committed_world.history (value_at (table committed_world.store)))
            → WorldOk v committed_world
        ok_with h = record {
          in_step = decisions.keeps w.cert w.store (request cl.txn) ok.in_step room;
          all_ok = h.0;
          serial = h.1;
        }

    commit_step-WorldOk : counter w.cert + 1 < u64_mod → WorldOk v (commit_step st cert w i cl)
    unfolding commit_step Execution.commit committed_world
    commit_step-WorldOk room = elim (Option-cases (Execution.check_active cl.txn)) [
      | inl e ↦ rw (e, commit_step, Execution.commit) (committed_world-WorldOk room)
      | inr (err, e) ↦ rw (e, commit_step, Execution.commit) (put_client-WorldOk cl here)
    ]

  pub at_client_cases :
      (P : World C S → Type 0) (w : World C S) (i : ℕ) (f : Client → World C S)
      → P w
      → ((cl : Client) → get_elem? w.clients i ≡ some cl → P (f cl))
      → P (at_client st cert w i f)
  at_client_cases P w i f h k = elim (Option-cases (get_elem? w.clients i)) [
    | inl e ↦ rw (e, at_client) h
    | inr (cl, e) ↦ rw (e, at_client) (k cl e)
  ]

  at_client-WorldOk :
      (v : Values) (w : World C S) (i : ℕ) (f : Client → World C S)
      → WorldOk v w
      → ((cl : Client) → ClientOk (table w.store) cl → WorldOk v (f cl))
      → WorldOk v (at_client st cert w i f)
  at_client-WorldOk v w i f ok h =
      at_client_cases (WorldOk v) w i f ok
        λ cl e. h cl (All-get_elem? (ClientOk (table w.store)) w.clients i ok.all_ok e)

  pub step-WorldOk :
      (v : Values) (w : World C S) (e : Event)
      → counter w.cert + 1 < u64_mod
      → WorldOk v w
      → WorldOk v (step st cert w e)
  unfolding step
  step-WorldOk v w begins room ok = begin_step-WorldOk v w ok
  step-WorldOk v w (reads i key) room ok =
      at_client-WorldOk v w i _ ok (λ cl h. read_step-WorldOk v w i cl ok h key)
  step-WorldOk v w (writes i key value) room ok = at_client-WorldOk v w i _ ok (λ cl h.
      put_client-WorldOk v w i cl ok h _ (write_client-ClientOk (table w.store) key value cl h))
  step-WorldOk v w (commits i) room ok =
      at_client-WorldOk v w i _ ok (λ cl h. commit_step-WorldOk v w i cl ok h room)
  step-WorldOk v w (aborts i) room ok =
      at_client-WorldOk v w i _ ok
        (λ cl h. put_client-WorldOk v w i cl ok h _ (abort_client-ClientOk (table w.store) cl h))
  step-WorldOk v w syncs room ok = sync_step-WorldOk v w ok
