-- ===== src/Deployment.antt =====
-- How the programs start (cmd/demo/main.go, pkg/benchmark/driver.go): the data is loaded, the
-- certifier reads it off the store, and the engine runs transactions.
pub mod Serializable
pub mod Epochs
use mathlib.Core.Path.{fun_ext}
use ccas.Common.{
  false, ℕ, ◌+◌, ◌≤◌, ◌<◌, String, ◌≡◌, refl, sym, ap, subst, ◌∙◌, Option, none, some, List, [],
  ◌∷◌, arith, length, u64_mod, if◌then◌else◌, ltb,
}
use ccas.Dict
use ccas.Dict.{Dict}
use ccas.Storage.{Entry, Store}
use ccas.Storage.Contract.{Table, StoreLaws, loaded}
use ccas.Storage.Mem.{MemStore, new_mem_store, mem_store}
use ccas.Storage.Mem as Mem
use ccas.Storage.Mem.Laws.{mem_laws}
use ccas.Ccaas.{Certifier}
use ccas.Ccaas.Outcome.{CertifierLaws}
use ccas.Ccaas.Versions.{scan_versions, scan_versions-le, dumped-le}
use ccas.Ccaas.Immediate
use ccas.Ccaas.Immediate.{ImmediateCertifier, immediate_certifier}
use ccas.Ccaas.Immediate.Laws.{
  InStep, new_immediate_certifier-InStep, sync_from_storage-InStep, immediate_laws,
}
use ccas.Ccaas.Epoch
use ccas.Ccaas.Epoch.{EpochCertifier}
use ccas.Service.{Loop, Service}
use ccas.Execution
use ccas.World.{World, Event, run}
use ccas.World.Serial.{Values, value_of, value_at, Serial}
use ccas.World.Serializable.{run-Serial}
use ccas.Grpc.{Transport, Delivers}
use ccas.Grpc.Certifying.{grpc_certifier, sync_remote}
use ccas.Grpc.Storing.{grpc_store}
use ccas.Grpc.Delivered.{ShowsErrors}
use ccas.Grpc.Laws.{grpc_store_laws, grpc_certifier_laws}

-- The values that are loaded; a missing key shows the empty text.
abbrev pub values_of : Dict String → Values
values_of d k = elim (Dict.get d k) [ some v ↦ v | none ↦ "" ]

module _ {C S : Type 0} where
  -- The engine begins with no transaction.
  abbrev pub first_world : C → S → World C S
  first_world c s = record {
    cert = c;
    store = s;
    engine = Execution.new_engine;
    clients = [];
    history = [];
  }

-- `runDemo` with immediate certification: everything in one process.
unfoldable pub start_local : Dict String → World ImmediateCertifier MemStore
start_local d =
    let ms = Mem.load_initial_data new_mem_store d in
    let (c, s) = Immediate.new_immediate_certifier mem_store ms in first_world c s

-- An epoch certifier whose goroutine has been started, with no transaction yet.
abbrev pub first_service : {S : Type 0} → EpochCertifier → S → Service S
first_service c s = record {
  cert = c;
  store = s;
  engine = Execution.new_engine;
  clients = [];
  history = [];
  loop = Loop.selecting;
  stop_closed = false;
}

-- `runDemo` with epoch certification: everything in one process.
unfoldable pub start_epochs : Dict String → Service MemStore
start_epochs d =
    let ms = Mem.load_initial_data new_mem_store d in
    let (c, s) = Epoch.new_epoch_certifier mem_store ms in first_service c s

-- What runs in the certifier server; `M` is the state of the connection to it.
pub data CertifierServer (M : Type 0) : Type 0 where
  immediate : M × ImmediateCertifier → CertifierServer M
  with_epochs : EpochCertifier → CertifierServer M

-- The server has nothing pending, and its counter is not above `high`.
abbrev pub Idle : {M : Type 0} → ℕ → CertifierServer M → Type 0
Idle high (immediate (m, c)) = c.commit_seq ≤ high
Idle high (with_epochs c) = (c.current_batch ≡ []) × (c.commit_seq ≤ high)

-- The store over a connection.
abbrev pub far_store : {N : Type 0} → Transport N → Store (N × MemStore)
far_store t = grpc_store t mem_store

module _ {N M : Type 0} (t : Transport N) (u : Transport M) where
  abbrev pub far_certifier : Certifier (M × ImmediateCertifier) (N × MemStore)
  far_certifier = grpc_certifier u (immediate_certifier (far_store t))

  -- `runDemoWith`, up to the engine: it loads the data and syncs the certifier, both over their
  -- connections.
  unfoldable pub load_and_sync :
      M × ImmediateCertifier
      → N × MemStore
      → Dict String
      → World (M × ImmediateCertifier) (N × MemStore)
  load_and_sync c s d =
      let s' = (far_store t).load_initial_data s d in
      let (c', s'') = far_certifier.sync_from_storage c s' in first_world c' s''

  -- The storage server and the certifier server start, over an empty store; then a client starts.
  unfoldable pub start_remote : N → M → Dict String → World (M × ImmediateCertifier) (N × MemStore)
  start_remote n m d =
      let (c, s) = Immediate.new_immediate_certifier (far_store t) (n, new_mem_store) in
      load_and_sync (m, c) s d

module _ {N : Type 0} (t : Transport N) where
  -- `runDemoWith`, up to the engine, on an epoch certifier that runs in a server: the data is loaded
  -- and the certifier synced. The connection to the certifier delivers every message.
  unfoldable pub load_and_sync_epochs :
      EpochCertifier → N × MemStore → Dict String → Service (N × MemStore)
  load_and_sync_epochs c s d =
      let s' = (far_store t).load_initial_data s d in
      let (c', s'') = Epoch.sync_from_storage (far_store t) c s' in first_service c' s''

  -- `main` of the certifier server, with the flag `epoch-ms`: the certifier that it makes.
  unfoldable pub certifier_server :
      {M : Type 0} → ℕ → M → N × MemStore → CertifierServer M × (N × MemStore)
  certifier_server epoch_ms m s =
      if ltb 0 epoch_ms
      then (let (c, s') = Epoch.new_epoch_certifier (far_store t) s in (with_epochs c, s'))
      else (let (c, s') = Immediate.new_immediate_certifier (far_store t) s in
          (immediate (m, c), s'))
