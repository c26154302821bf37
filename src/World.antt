-- ===== src/World.antt =====
-- Concurrent transactions: any number of clients call the engine (pkg/execution) in any order over
-- one store and one certifier. The mutexes of the store and of the certifier make each call one
-- step, so an interleaving is a list of calls.
pub mod Serial
pub mod Invariant
pub mod Reading
pub mod Calls
pub mod Settling
pub mod Steps
pub mod Serializable
pub mod Numbers
pub mod Totals
pub mod Stepping
pub mod Fresh
pub mod Progress
use ccas.Common.{
  ℕ, String, Bool, true, false, Option, none, some, List, [], ◌∷◌, ◌++◌, get_elem?, set_elem,
  if◌then◌else◌,
}
use ccas.Dict
use ccas.Types.{WriteEntry}
use ccas.Storage.{Store}
use ccas.Ccaas.{Certifier}
use ccas.Execution
use ccas.Execution.{Txn, Engine}

-- A client's transaction, and what its reads from the store returned so far (the write buffer
-- answers a key that the transaction has written).
pub record Client : Type 0 where
  pub txn : Txn
  pub seen : List (String × String)

-- A transaction that has committed: what it read and what it wrote.
pub record Done : Type 0 where
  pub reads : List (String × String)
  pub writes : List WriteEntry

pub record World (C S : Type 0) : Type 0 where
  pub cert : C
  pub store : S
  pub engine : Engine
  pub clients : List Client
  pub history : List Done

-- The calls; a number names a client, and a call of a client that does not exist does nothing.
pub data Event : Type 0 where
  begins : Event
  reads : ℕ → String → Event
  writes : ℕ → String → String → Event
  commits : ℕ → Event
  aborts : ℕ → Event
  syncs : Event

-- Whether `Engine.Read` goes to the store.
abbrev pub from_store : Txn → String → Bool
from_store txn key = elim (Execution.check_active txn) [
  | some _ ↦ false
  | none ↦ elim (Dict.get txn.write_buffer key) [ some _ ↦ false | none ↦ true ]
]

module _ {S : Type 0} (st : Store S) where
  -- `Engine.Read` by a client.
  unfoldable pub read_client : S → String → Client → S × Client
  read_client s key cl =
      let ((s', txn), (val, _)) = Execution.read st s cl.txn key in
      let seen = if from_store cl.txn key then (key, val) ∷ cl.seen else cl.seen in
      (s', record { txn = txn; seen = seen })

-- `Engine.Write` and `Engine.Abort` by a client.
unfoldable pub write_client : String → String → Client → Client
write_client key value cl = record cl { txn = (Execution.write cl.txn key value).0 }

unfoldable pub abort_client : Client → Client
abort_client cl = record cl { txn = Execution.abort cl.txn }

module _ {C S : Type 0} where
  abbrev pub put_client : World C S → ℕ → Client → World C S
  put_client w i cl = record w { clients = set_elem w.clients i cl }

  module _ (st : Store S) (cert : Certifier C S) where
    unfoldable pub begin_step : World C S → World C S
    begin_step w =
        let (engine, txn) = Execution.begin w.engine in
        record w { engine = engine; clients = w.clients ++ record { txn = txn; seen = [] } ∷ [] }

    unfoldable pub read_step : World C S → ℕ → String → Client → World C S
    read_step w i key cl =
        let (store, cl') = read_client st w.store key cl in
        record w { store = store; clients = set_elem w.clients i cl' }

    unfoldable pub commit_step : World C S → ℕ → Client → World C S
    commit_step w i cl =
        let (((c, s), txn), (result, _)) = Execution.commit cert w.cert w.store cl.txn in
        let committed : Done = record { reads = cl.seen; writes = cl.txn.write_set } in
        record w {
          cert = c;
          store = s;
          clients = set_elem w.clients i (record cl { txn = txn });
          history = if result.committed then w.history ++ committed ∷ [] else w.history;
        }

    unfoldable pub sync_step : World C S → World C S
    sync_step w =
        let (c, s) = cert.sync_from_storage w.cert w.store in record w { cert = c; store = s }

    abbrev pub at_client : World C S → ℕ → (Client → World C S) → World C S
    at_client w i f = elim (get_elem? w.clients i) [ none ↦ w | some cl ↦ f cl ]

    unfoldable pub step : World C S → Event → World C S
    step w begins = begin_step w
    step w (reads i key) = at_client w i (read_step w i key)
    step w (writes i key value) = at_client w i (λ cl. put_client w i (write_client key value cl))
    step w (commits i) = at_client w i (commit_step w i)
    step w (aborts i) = at_client w i (λ cl. put_client w i (abort_client cl))
    step w syncs = sync_step w

    unfoldable pub run : World C S → List Event → World C S
    run w [] = w
    run w (e ∷ es) = run (step w e) es
