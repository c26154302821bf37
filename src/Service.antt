-- ===== src/Service.antt =====
-- pkg/ccaas/epoch.go: the goroutine `run` of `EpochCertifier` beside the clients that wait for it
-- (`Start`, `Stop`, `SubmitCommit`, `processEpoch`).
--
-- Every wait, lock and send is a step of its own: an epoch is taken in one step and certified one
-- transaction at a time, while clients read, write and submit between. A client has one result
-- channel, named by the client's number.
pub mod Invariant
pub mod Calls
pub mod Working
pub mod Counting
pub mod Serializable
pub mod Epochs
pub mod Stopped
pub mod Jobs
use ccas.Common.{
  ℕ, String, Bool, true, false, Option, none, some, List, [], ◌∷◌, ◌++◌, ◌||◌, ◌&&◌, eqb, get_elem?,
  set_elem, if◌then◌else◌,
}
use ccas.Dict.{Dict}
use ccas.Types.{TxnResult}
use ccas.Storage.{Store}
use ccas.Ccaas.Epoch
use ccas.Ccaas.Epoch.{PendingTxn, EpochCertifier, EpochState}
use ccas.Execution
use ccas.Execution.{Txn, Engine, request, finish}
use ccas.World.{
  Client, Done, Event, begins, reads, writes, commits, aborts, syncs, read_client, write_client,
  abort_client,
}

-- Where `run` stands: in the `select`; in `processEpoch` with the batch taken and before `mu`; under
-- `mu` in its loop, with `claimedKeys` and the transactions left; after its return. The flag says
-- that this is the drain after `stopCh` was closed.
pub data Loop : Type 0 where
  selecting : Loop
  swapped : Bool → List PendingTxn → Loop
  certifying : Bool → Dict String → List PendingTxn → Loop
  returned : Loop

pub record Service (S : Type 0) : Type 0 where
  pub cert : EpochCertifier
  pub store : S
  pub engine : Engine
  pub clients : List Client
  pub history : List Done
  pub loop : Loop
  pub stop_closed : Bool

-- A call of a client; the ticker fires and `run` takes the case; `Stop` closes `stopCh`; `run` takes
-- that case; `run` goes on in `processEpoch`.
pub data Move : Type 0 where
  call : Event → Move
  ticks : Move
  stops : Move
  drains : Move
  works : Move

-- The transactions that `processEpoch` has taken and not answered.
abbrev pub taken : Loop → List PendingTxn
taken selecting = []
taken (swapped last batch) = batch
taken (certifying last claimed batch) = batch
taken returned = []

-- The loop waits for its next case, or has returned after the drain.
abbrev pub after_epoch : Bool → Loop
after_epoch last = if last then returned else selecting

-- Someone waits on the channel.
unfoldable pub waits_in : List PendingTxn → ℕ → Bool
waits_in [] i = false
waits_in (p ∷ ps) i = eqb p.result_ch i || waits_in ps i

-- What a result changes: the client's transaction and, if it is a commit, the history.
unfoldable pub deliver_to : ℕ → TxnResult → List Client × List Done → List Client × List Done
deliver_to i result (clients, history) = elim (get_elem? clients i) [
  | none ↦ (clients, history)
  | some cl ↦
      let committed : Done = record { reads = cl.seen; writes = cl.txn.write_set } in
      (
        set_elem clients i (record cl { txn = finish cl.txn result }),
        if result.committed then history ++ committed ∷ [] else history,
      )
]

module _ {S : Type 0} where
  -- A client is blocked in `SubmitCommit` until its result is sent.
  abbrev pub pending : Service S → List PendingTxn
  pending w = taken w.loop ++ w.cert.current_batch

  abbrev pub set_client : Service S → ℕ → Client → Service S
  set_client w i cl = record w { clients = set_elem w.clients i cl }

  -- A client that does not exist or is blocked makes no call.
  unfoldable pub at_free_client : Service S → ℕ → (Client → Service S) → Service S
  unfolding waits_in
  at_free_client w i f = elim (waits_in (pending w) i) [
    | true ↦ w
    | false ↦ elim (get_elem? w.clients i) [ none ↦ w | some cl ↦ f cl ]
  ]

  -- The part of `Engine.Commit` and `SubmitCommit` that comes before the wait.
  unfoldable pub submit : Service S → ℕ → Client → Service S
  submit w i cl = elim (Execution.check_active cl.txn) [
    | some err ↦ w
    | none ↦ record w {
      cert = Epoch.enqueue w.cert (record { req = request cl.txn; result_ch = i });
    }
  ]

  -- The client receives its result, and `Engine.Commit` goes on.
  unfoldable pub deliver : ℕ → TxnResult → Service S → Service S
  unfolding deliver_to
  deliver i result w =
      let (clients, history) = deliver_to i result (w.clients, w.history) in
      record w { clients = clients; history = history }

  -- `batch := c.currentBatch; c.currentBatch = nil`
  unfoldable pub swap_batch : Bool → Service S → Service S
  swap_batch last w = record w {
    cert = record w.cert { current_batch = [] };
    loop = swapped last w.cert.current_batch;
  }

  unfoldable pub begin_call : Service S → Service S
  begin_call w =
      let (engine, txn) = Execution.begin w.engine in
      record w { engine = engine; clients = w.clients ++ record { txn = txn; seen = [] } ∷ [] }

  -- The case of the ticker, and that of `stopCh`.
  unfoldable pub tick : Loop → Service S → Service S
  tick selecting w = swap_batch false w
  tick other w = w

  unfoldable pub drain : Loop → Service S → Service S
  drain selecting w = if w.stop_closed then swap_batch true w else w
  drain other w = w

module _ {S : Type 0} (st : Store S) (sort : List PendingTxn → List PendingTxn) where
  unfoldable pub read_call : Service S → ℕ → String → Client → Service S
  read_call w i key cl =
      let (store, cl') = read_client st w.store key cl in
      record w { store = store; clients = set_elem w.clients i cl' }

  unfoldable pub sync : Service S → Service S
  sync w =
      let (cert, store) = Epoch.sync_from_storage st w.cert w.store in
      record w { cert = cert; store = store }

  -- `SyncFromStorage` waits while `processEpoch` holds `mu`.
  unfoldable pub sync_call : Loop → Service S → Service S
  sync_call (certifying last claimed batch) w = w
  sync_call other w = sync w

  unfoldable pub client_call : Service S → Event → Service S
  unfolding begin_call
  client_call w begins = begin_call w
  client_call w (reads i key) = at_free_client w i (read_call w i key)
  client_call w (writes i key value) =
      at_free_client w i (λ cl. set_client w i (write_client key value cl))
  client_call w (commits i) = at_free_client w i (submit w i)
  client_call w (aborts i) = at_free_client w i (λ cl. set_client w i (abort_client cl))
  client_call w syncs = sync_call w.loop w

  -- `result := c.certifyTxn(p.req, claimedKeys); p.resultCh <- result`
  unfoldable pub certify_next :
      Bool → Dict String → PendingTxn → List PendingTxn → Service S → Service S
  certify_next last claimed p ps w =
      let ((e, s), result) =
        Epoch.certify_txn st (record { cert = w.cert; claimed_keys = claimed }) w.store p.req in
      deliver p.result_ch result
        (record w { cert = e.cert; store = s; loop = certifying last e.claimed_keys ps })

  -- The next step of `processEpoch`.
  unfoldable pub work : Loop → Service S → Service S
  work (swapped last []) w = record w { loop = after_epoch last }
  work (swapped last (p ∷ ps)) w = record w { loop = certifying last [] (sort (p ∷ ps)) }
  work (certifying last claimed []) w = record w { loop = after_epoch last }
  work (certifying last claimed (p ∷ ps)) w = certify_next last claimed p ps w
  work other w = w

  -- `Stop` is called once: a second call, which in Go panics on the closed `stopCh`, does nothing.
  unfoldable pub move : Service S → Move → Service S
  unfolding tick drain
  move w (call e) = client_call w e
  move w ticks = tick w.loop w
  move w stops = record w { stop_closed = true }
  move w drains = drain w.loop w
  move w works = work w.loop w

  unfoldable pub run_moves : Service S → List Move → Service S
  run_moves w [] = w
  run_moves w (m ∷ ms) = run_moves (move w m) ms
