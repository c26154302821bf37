-- ===== src/World/Serializable.antt =====
-- Every interleaving is serializable, in the order of the commits.
use ccas.Common.{
  ℕ, ◌+◌, ◌≤◌, ◌<◌, ◌≡◌, refl, sym, subst, inl, inr, List, [], ◌∷◌, arith, length, All,
  Option-cases, u64_mod,
}
use ccas.Storage.{Store}
use ccas.Storage.Contract.{StoreLaws}
use ccas.Ccaas.{Certifier}
use ccas.Ccaas.Outcome.{CertifierLaws}
use ccas.Execution
use ccas.Execution.{Txn, request, finish}
use ccas.World.{
  Client, World, Event, begins, reads, writes, commits, aborts, syncs, begin_step, read_step,
  commit_step, sync_step, step, run,
}
use ccas.World.Serial.{Values, value_at, Serial}
use ccas.World.Invariant.{ClientOk}
use ccas.World.Steps.{WorldOk, at_client_cases, step-WorldOk}

module _ {C S : Type 0} (st : Store S) (laws : StoreLaws st) (cert : Certifier C S)
    (decisions : CertifierLaws cert laws.table) where
  open laws use {table}
  open decisions use {InStep, counter}

  commit_step-counter :
      (w : World C S) (i : ℕ) (cl : Client)
      → InStep w.cert w.store
      → counter w.cert + 1 < u64_mod
      → counter (commit_step st cert w i cl).cert ≤ counter w.cert + 1
  unfolding commit_step Execution.commit
  commit_step-counter w i cl h room = elim (Option-cases (Execution.check_active cl.txn)) [
    | inl e ↦
        rw (e, commit_step, Execution.commit)
          (elim (decisions.decides w.cert w.store (request cl.txn) h room) [
            | inl cm ↦ omega (arith, cm.counter)
            | inr ab ↦ omega (arith, ab.2)
          ])
    | inr (err, e) ↦ rw (e, commit_step, Execution.commit) (omega arith)
  ]

  -- Each call takes at most one number.
  pub step-counter :
      (w : World C S) (e : Event)
      → InStep w.cert w.store
      → counter w.cert + 1 < u64_mod
      → counter (step st cert w e).cert ≤ counter w.cert + 1
  unfolding step begin_step read_step sync_step
  step-counter w begins h room = omega arith
  step-counter w (commits i) h room =
      at_client_cases st laws cert decisions (λ u. counter u.cert ≤ counter w.cert + 1) w i _
        (omega arith) λ cl e. commit_step-counter w i cl h room
  step-counter w syncs h room = omega (arith, (decisions.syncs w.cert w.store h).1)
  step-counter w (reads i key) h room = ground arith
  step-counter w (writes i key value) h room = ground arith
  step-counter w (aborts i) h room = ground arith

  -- Whatever calls the clients make, the invariant holds.
  run-WorldOk :
      (v : Values) (w : World C S) (es : List Event)
      → counter w.cert + length es < u64_mod
      → WorldOk st laws cert decisions v w
      → WorldOk st laws cert decisions v (run st cert w es)
  unfolding run
  run-WorldOk v w [] room ok = ok
  run-WorldOk v w (e ∷ es) room ok =
      run-WorldOk v (step st cert w e) es (omega (arith, step-counter w e ok.in_step (omega arith)))
        (step-WorldOk st laws cert decisions v w e (omega arith) ok)

  -- It holds before the first transaction.
  pub first-WorldOk :
      (w : World C S)
      → InStep w.cert w.store
      → w.clients ≡ []
      → w.history ≡ []
      → WorldOk st laws cert decisions (value_at (table w.store)) w
  first-WorldOk w h none_yet nothing = record {
    in_step = h;
    all_ok = subst (All (ClientOk (table w.store))) (sym none_yet) tt;
    serial =
        subst (λ x. Serial (value_at (table w.store)) x (value_at (table w.store))) (sym nothing)
          refl;
  }

  -- Start with no transaction, a certifier in step with the store, and a counter that stays below
  -- the last uint64. Whatever calls the clients then make, in whatever order, the committed
  -- transactions in the order of their commits are a serial execution from the first values of the
  -- store to the last: each one read the values that it would read if it ran alone at its commit,
  -- and the store holds what their writes leave.
  pub run-Serial :
      (w : World C S) (es : List Event)
      → InStep w.cert w.store
      → w.clients ≡ []
      → w.history ≡ []
      → counter w.cert + length es < u64_mod
      → let w' = run st cert w es in
        Serial (value_at (table w.store)) w'.history (value_at (table w'.store))
  run-Serial w es h none_yet nothing room =
      (run-WorldOk (value_at (table w.store)) w es room (first-WorldOk w h none_yet nothing)).serial
