-- ===== src/Network.antt =====
-- Any number of clients whose engine (pkg/execution) reaches the store and the certifier over
-- connections that may lose requests and responses (pkg/storage/grpc_client.go,
-- pkg/ccaas/grpc_client.go). The certifier stands beside the store, or reaches it some other way.
--
-- The history is the certifier's: a transaction enters it when the certifier commits it, also if the
-- response is lost and its client is told of an abort.
pub mod Reads
pub mod Decisions
pub mod Serializable
use ccas.Common.{
  ℕ, String, Bool, true, false, Option, none, some, List, [], ◌∷◌, ◌++◌, ◌&&◌, get_elem?, set_elem,
  if◌then◌else◌,
}
use ccas.Dict
use ccas.Storage.{Store}
use ccas.Ccaas.{Certifier}
use ccas.Execution
use ccas.Execution.{Txn, Engine, request}
use ccas.World.{
  Client, Done, Event, begins, reads, writes, commits, aborts, syncs, from_store, write_client,
  abort_client,
}
use ccas.World.Settling.{done_of}
use ccas.Grpc.{Transport, Fate, delivered, lost_request, lost_response}
use ccas.Grpc.Certifying.{submit_remote, sync_remote, grpc_certifier}
use ccas.Grpc.Storing.{grpc_store}

-- `link` is the connection to the store, `wire` the one to the certifier.
pub record Network (N M C S : Type 0) : Type 0 where
  pub link : N
  pub wire : M
  pub cert : C
  pub store : S
  pub engine : Engine
  pub clients : List Client
  pub history : List Done

-- The read enters the read set: it goes to the store, for a key that has not been read before.
unfoldable pub is_first : Txn → String → Bool
is_first txn key =
    from_store txn key && elim (Dict.get txn.read_versions key) [ some _ ↦ false | none ↦ true ]

-- Whether a call reaches the server.
abbrev pub arrives : Fate → Bool
arrives delivered = true
arrives (lost_request err) = false
arrives (lost_response err) = true

module _ {N M C S : Type 0} where
  abbrev pub put_client : Network N M C S → ℕ → Client → Network N M C S
  put_client w i cl = record w { clients = set_elem w.clients i cl }

  module _ (t : Transport N) (st : Store S) (u : Transport M) (cert : Certifier C S) where
    unfoldable pub begin_step : Network N M C S → Network N M C S
    begin_step w =
        let (engine, txn) = Execution.begin w.engine in
        record w { engine = engine; clients = w.clients ++ record { txn = txn; seen = [] } ∷ [] }

    -- `Engine.Read`; the client's record keeps what the first read of each key returned.
    unfoldable pub read_step : Network N M C S → ℕ → String → Client → Network N M C S
    read_step w i key cl =
        let (((link, store), txn), (val, _)) =
          Execution.read (grpc_store t st) (w.link, w.store) cl.txn key in
        let seen = if is_first cl.txn key then (key, val) ∷ cl.seen else cl.seen in
        record w {
          link = link;
          store = store;
          clients = set_elem w.clients i (record { txn = txn; seen = seen });
        }

    -- Whether the certifier commits the transaction when the client calls `Engine.Commit`.
    unfoldable pub commits_there : Network N M C S → Client → Bool
    commits_there w cl = elim (Execution.check_active cl.txn) [
      | some _ ↦ false
      | none ↦
          arrives (u.next w.wire).1
          && (cert.submit_commit w.cert w.store (request cl.txn)).1.committed
    ]

    -- `Engine.Commit`
    unfoldable pub commit_step : Network N M C S → ℕ → Client → Network N M C S
    unfolding commits_there
    commit_step w i cl =
        let ((((wire, c), store), txn), _) =
          Execution.commit (grpc_certifier u cert) (w.wire, w.cert) w.store cl.txn in
        record w {
          wire = wire;
          cert = c;
          store = store;
          clients = set_elem w.clients i (record cl { txn = txn });
          history = if commits_there w cl then w.history ++ done_of cl ∷ [] else w.history;
        }

    unfoldable pub sync_step : Network N M C S → Network N M C S
    sync_step w =
        let ((wire, c), store) = sync_remote u cert (w.wire, w.cert) w.store in
        record w { wire = wire; cert = c; store = store }

    abbrev pub at_client : Network N M C S → ℕ → (Client → Network N M C S) → Network N M C S
    at_client w i f = elim (get_elem? w.clients i) [ none ↦ w | some cl ↦ f cl ]

    unfoldable pub step : Network N M C S → Event → Network N M C S
    step w begins = begin_step w
    step w (reads i key) = at_client w i (read_step w i key)
    step w (writes i key value) = at_client w i (λ cl. put_client w i (write_client key value cl))
    step w (commits i) = at_client w i (commit_step w i)
    step w (aborts i) = at_client w i (λ cl. put_client w i (abort_client cl))
    step w syncs = sync_step w

    unfoldable pub run : Network N M C S → List Event → Network N M C S
    run w [] = w
    run w (e ∷ es) = run (step w e) es
