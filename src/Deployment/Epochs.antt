-- ===== src/Deployment/Epochs.antt =====
-- From the loaded data on, every run of a deployment with an epoch certifier is serializable.
use ccas.Common.{
  ℕ, ◌+◌, ◌≤◌, ◌<◌, String, ◌≡◌, refl, sym, ap, subst, ◌∙◌, some, List, [], arith, length, u64_mod,
  if_both, ltb,
}
use ccas.Dict.{Dict}
use ccas.Storage.{Entry}
use ccas.Storage.Contract.{StoreLaws, loaded}
use ccas.Storage.Mem as Mem
use ccas.Storage.Mem.{MemStore, new_mem_store, mem_store}
use ccas.Storage.Mem.Laws.{mem_laws, load_initial_data-loaded, table}
use ccas.Ccaas.Epoch
use ccas.Ccaas.Epoch.{EpochCertifier, PendingTxn}
use ccas.Ccaas.Epoch.Sorting.{Sorts}
use ccas.Ccaas.Epoch.Syncing.{
  new_epoch_certifier-InStep, new_epoch_certifier-le, sync_from_storage-InStep,
  sync_from_storage-le,
}
use ccas.Service.{Move, run_moves}
use ccas.Service.Serializable.{run_moves-Serial}
use ccas.World.Serial.{value_at, Serial}
use ccas.Grpc.{Transport, Delivers}
use ccas.Grpc.Storing.{load_remote}
use ccas.Grpc.Laws.{grpc_store_laws}
use ccas.Deployment.{
  CertifierServer, Idle, values_of, start_epochs, load_and_sync_epochs, certifier_server, far_store,
}
use ccas.Ccaas.Immediate
use ccas.Ccaas.Immediate.Laws.{new_immediate_certifier-le}
use ccas.Deployment.Serializable.{
  loaded_store-AllFirst, loaded-versions, value_at-loaded, new_mem_store-IsEmpty,
  mem_store-ShowsErrors,
}

-- One process with an epoch certifier: load the data into an empty store, make the certifier and
-- start its goroutine; then let the clients, the timer, the goroutine and `Stop` go on in any order.
-- The committed transactions, in the order of their certification, are a serial execution from the
-- loaded values to those in the store, as long as there are fewer steps than numbers.
pub start_epochs-Serial :
    (sort : List PendingTxn → List PendingTxn) (d : Dict String) (ms : List Move)
    → Sorts sort
    → length ms + 1 < u64_mod
    → let w = run_moves mem_store sort (start_epochs d) ms in
      Serial (values_of d) w.history (value_at (table w.store))
unfolding start_epochs Epoch.new_epoch_certifier
start_epochs-Serial sort d ms sorts room =
    let s = Mem.load_initial_data new_mem_store d in
    let first = loaded_store-AllFirst d in
    let (in_step, same) =
      new_epoch_certifier-InStep mem_store mem_laws s (λ k e h. omega (arith, first k e h)) in
    let low = new_epoch_certifier-le mem_store mem_laws s 1 (λ k e h. omega (arith, first k e h)) in
    let w = run_moves mem_store sort (start_epochs d) ms in
    subst (λ v. Serial v w.history (value_at (table w.store)))
      (ap value_at (same ∙ load_initial_data-loaded new_mem_store d)
        ∙ value_at-loaded _ d new_mem_store-IsEmpty)
      (run_moves-Serial mem_store mem_laws sort sorts (start_epochs d) ms in_step refl refl refl
        (omega arith))

module _ {N : Type 0} (t : Transport N) (t_ok : Delivers t) where
  -- Whatever the flag says, the certifier server starts idle, its counter not above the versions of
  -- the store that it reads, which keeps its table.
  pub certifier_server-Idle :
      {M : Type 0} (epoch_ms : ℕ) (m : M) (s : N × MemStore) (high : ℕ)
      → ((k : String) (e : Entry) → table s.1 k ≡ some e → (0 < e.version) × (e.version ≤ high))
      → let r = certifier_server t epoch_ms m s in Idle high r.0 × (table r.1.1 ≡ table s.1)
  unfolding certifier_server Epoch.new_epoch_certifier Immediate.new_immediate_certifier
  certifier_server-Idle {M = M} epoch_ms m s high within =
      let laws = grpc_store_laws t mem_store mem_laws t_ok mem_store-ShowsErrors in
      let le : (k : String) (e : Entry) → table s.1 k ≡ some e → e.version ≤ high =
        λ k e h. (within k e h).1 in
      if_both
        (λ (r : CertifierServer M × (N × MemStore)). Idle high r.0 × (table r.1.1 ≡ table s.1))
        (ltb 0 epoch_ms)
        ((refl, new_epoch_certifier-le (far_store t) laws s high le), laws.dump-table s)
        (new_immediate_certifier-le (far_store t) laws s high le, laws.dump-table s)

module _ {N : Type 0} (t : Transport N) (t_ok : Delivers t)
    (sort : List PendingTxn → List PendingTxn) (sorts : Sorts sort) where
  abbrev pub store_laws : StoreLaws (far_store t)
  store_laws = grpc_store_laws t mem_store mem_laws t_ok mem_store-ShowsErrors

  -- A client starts on a storage server and a certifier server with epochs, both of which may have
  -- been in use: whatever the certifier has certified and the store holds, once the client has loaded
  -- its data over them and synced the certifier, and nobody else calls, the committed transactions
  -- are a serial execution from the values that the loading leaves, however the clients' calls, the
  -- timer, the goroutine and `Stop` interleave. The connections lose nothing, no transaction is
  -- pending at first, the versions in the store are positive, and the number of steps leaves the
  -- counter below the last uint64.
  pub load_and_sync_epochs-Serial :
      (c : EpochCertifier) (s : N × MemStore) (d : Dict String) (high : ℕ) (ms : List Move)
      → c.current_batch ≡ []
      → 1 ≤ high
      → c.commit_seq ≤ high
      → ((k : String) (e : Entry) → table s.1 k ≡ some e → (0 < e.version) × (e.version ≤ high))
      → length ms + high < u64_mod
      → let w = run_moves (far_store t) sort (load_and_sync_epochs t c s d) ms in
        Serial (value_at (loaded (table s.1) d)) w.history (value_at (table w.store.1))
  unfolding load_and_sync_epochs
  load_and_sync_epochs-Serial c s d high ms idle one low within room =
      let s' = load_remote t mem_store s d in
      let shape : store_laws.table s' ≡ loaded (table s.1) d = store_laws.load-table s d in
      let fits : (k : String) (e : Entry)
          → store_laws.table s' k ≡ some e
          → (0 < e.version) × (e.version ≤ high) =
        subst (λ x. (k : String) (e : Entry) → x k ≡ some e → (0 < e.version) × (e.version ≤ high))
          (sym shape) (loaded-versions (table s.1) d high one within) in
      let (in_step, same, batch) =
        sync_from_storage-InStep (far_store t) store_laws c s' (λ k e h. (fits k e h).0) in
      let bound =
        sync_from_storage-le (far_store t) store_laws c s' high low (λ k e h. (fits k e h).1) in
      let w = run_moves (far_store t) sort (load_and_sync_epochs t c s d) ms in
      subst (λ v. Serial v w.history (value_at (table w.store.1))) (ap value_at (same ∙ shape))
        (run_moves-Serial (far_store t) store_laws sort sorts (load_and_sync_epochs t c s d) ms
          in_step refl refl (batch ∙ idle) (omega (arith, bound)))
