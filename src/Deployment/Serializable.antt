-- ===== src/Deployment/Serializable.antt =====
-- From the loaded data on, every run of a deployment is serializable.
use mathlib.Core.Path.{fun_ext}
use ccas.Common.{
  ℕ, ◌+◌, ◌≤◌, ◌<◌, String, ◌≡◌, refl, sym, ap, subst, ◌∙◌, none, some, List, arith, length,
  u64_mod,
}
use ccas.Dict
use ccas.Dict.{Dict}
use ccas.Storage.{Entry}
use ccas.Storage.Contract.{Table, StoreLaws, loaded}
use ccas.Storage.Mem as Mem
use ccas.Storage.Mem.{MemStore, new_mem_store, mem_store}
use ccas.Storage.Mem.Laws.{mem_laws, load_initial_data-loaded, apply_commit-ne_empty, table}
use ccas.Ccaas.Immediate
use ccas.Ccaas.Immediate.{ImmediateCertifier, immediate_certifier}
use ccas.Ccaas.Immediate.Laws.{
  new_immediate_certifier-InStep, new_immediate_certifier-le, sync_from_storage-InStep,
  sync_from_storage-le, immediate_laws,
}
use ccas.World.{Event, run}
use ccas.World.Serial.{value_at, Serial}
use ccas.World.Serializable.{run-Serial}
use ccas.Grpc.{Transport, Delivers}
use ccas.Grpc.Storing.{load_remote}
use ccas.Grpc.Delivered.{ShowsErrors, sync_remote-delivered}
use ccas.Grpc.Laws.{grpc_store_laws, grpc_certifier_laws}
use ccas.Deployment.{values_of, start_local, start_remote, load_and_sync, far_store, far_certifier}

abbrev pub IsEmpty : Table → Type 0
IsEmpty t = (k : String) → t k ≡ none

-- Every version in a table is 1.
abbrev pub AllFirst : Table → Type 0
AllFirst t = (k : String) (e : Entry) → t k ≡ some e → e.version ≡ 1

loaded-AllFirst : (t : Table) (d : Dict String) → IsEmpty t → AllFirst (loaded t d)
unfolding loaded
loaded-AllFirst t d none_yet k e h = ground (arith, none_yet k)

pub loaded-versions :
    (t : Table) (d : Dict String) (high : ℕ)
    → 1 ≤ high
    → ((k : String) (e : Entry) → t k ≡ some e → (0 < e.version) × (e.version ≤ high))
    → (k : String) (e : Entry) → loaded t d k ≡ some e
    → (0 < e.version) × (e.version ≤ high)
unfolding loaded
loaded-versions t d high one within k e h = ground (arith, within k e)

pub value_at-loaded :
    (t : Table) (d : Dict String) → IsEmpty t → value_at (loaded t d) ≡ values_of d
unfolding loaded
value_at-loaded t d none_yet = fun_ext λ k. ground (arith, none_yet k)

pub new_mem_store-IsEmpty : IsEmpty (table new_mem_store)
unfolding Dict.get
new_mem_store-IsEmpty k = refl

-- A new store with the data in it.
pub loaded_store-AllFirst :
    (d : Dict String) → AllFirst (table (Mem.load_initial_data new_mem_store d))
loaded_store-AllFirst d =
    subst AllFirst (sym (load_initial_data-loaded new_mem_store d))
      (loaded-AllFirst (table new_mem_store) d new_mem_store-IsEmpty)

-- One process: load the data into an empty store, make the certifier, and let the clients call the
-- engine in any order. The committed transactions are a serial execution from the loaded values to
-- those in the store, as long as there are fewer calls than numbers.
pub start_local-Serial :
    (d : Dict String) (es : List Event)
    → length es + 1 < u64_mod
    → let w = run mem_store (immediate_certifier mem_store) (start_local d) es in
      Serial (values_of d) w.history (value_at (table w.store))
unfolding start_local
start_local-Serial d es room =
    let ms = Mem.load_initial_data new_mem_store d in
    let shape = load_initial_data-loaded new_mem_store d in
    let first = loaded_store-AllFirst d in
    let (in_step, same) =
      new_immediate_certifier-InStep mem_store mem_laws ms (λ k e h. omega (arith, first k e h)) in
    let low =
      new_immediate_certifier-le mem_store mem_laws ms 1 (λ k e h. omega (arith, first k e h)) in
    let w = run mem_store (immediate_certifier mem_store) (start_local d) es in
    subst (λ v. Serial v w.history (value_at (table w.store)))
      (ap value_at (same ∙ shape) ∙ value_at-loaded _ d new_mem_store-IsEmpty)
      (run-Serial mem_store mem_laws (immediate_certifier mem_store)
        (immediate_laws mem_store mem_laws) (start_local d) es in_step refl refl (omega arith))

pub mem_store-ShowsErrors : ShowsErrors mem_store
mem_store-ShowsErrors s r = apply_commit-ne_empty s r

module _ {N M : Type 0} (t : Transport N) (u : Transport M) (t_ok : Delivers t)
    (u_ok : Delivers u) where
  abbrev pub far_laws : StoreLaws (far_store t)
  far_laws = grpc_store_laws t mem_store mem_laws t_ok mem_store-ShowsErrors

  -- A client starts on servers that have been in use: whatever the certifier server has certified
  -- and the store holds, once the client has loaded its data over them and synced the certifier,
  -- and nobody else calls, the committed transactions are a serial execution from the values that
  -- the loading leaves. The connections lose nothing, the versions in the store are positive, and
  -- the number of calls leaves the counter below the last uint64.
  pub load_and_sync-Serial :
      (m : M) (c : ImmediateCertifier) (s : N × MemStore) (d : Dict String) (high : ℕ)
      (es : List Event)
      → 1 ≤ high
      → c.commit_seq ≤ high
      → ((k : String) (e : Entry) → table s.1 k ≡ some e → (0 < e.version) × (e.version ≤ high))
      → length es + high < u64_mod
      → let w = run (far_store t) (far_certifier t u) (load_and_sync t u (m, c) s d) es in
        Serial (value_at (loaded (table s.1) d)) w.history (value_at (table w.store.1))
  unfolding load_and_sync
  load_and_sync-Serial m c s d high es one low within room =
      let s' = load_remote t mem_store s d in
      let shape : far_laws.table s' ≡ loaded (table s.1) d = far_laws.load-table s d in
      let fits : (k : String) (e : Entry)
          → far_laws.table s' k ≡ some e
          → (0 < e.version) × (e.version ≤ high) =
        subst (λ x. (k : String) (e : Entry) → x k ≡ some e → (0 < e.version) × (e.version ≤ high))
          (sym shape) (loaded-versions (table s.1) d high one within) in
      let synced = sync_remote-delivered u (immediate_certifier (far_store t)) m c s' (u_ok m) in
      let (in_step, _, same) =
        sync_from_storage-InStep (far_store t) far_laws c s' (λ k e h. (fits k e h).0) in
      let bound =
        sync_from_storage-le (far_store t) far_laws c s' high low (λ k e h. (fits k e h).1) in
      let w = run (far_store t) (far_certifier t u) (load_and_sync t u (m, c) s d) es in
      subst (λ v. Serial v w.history (value_at (table w.store.1)))
        (ap value_at (ap (λ r. far_laws.table r.1) synced ∙ (same ∙ shape)))
        (run-Serial (far_store t) far_laws (far_certifier t u)
          (grpc_certifier_laws u (immediate_certifier (far_store t)) far_laws.table
            (immediate_laws (far_store t) far_laws) u_ok)
          (load_and_sync t u (m, c) s d) es (rw synced in_step) refl refl
          (rw synced (omega (arith, bound))))

  -- The certifier was made over the empty store.
  made_empty-le :
      (n : N)
      → (Immediate.new_immediate_certifier (far_store t) (n, new_mem_store)).0.commit_seq ≤ 1
  made_empty-le n =
      new_immediate_certifier-le (far_store t) far_laws (n, new_mem_store) 1
        (λ k e h. absurd (cc (new_mem_store-IsEmpty k)))

  -- Three processes over connections that lose nothing: the servers start over an empty store, the
  -- data is loaded, the certifier is synced, and the clients call the engine in any order. The
  -- committed transactions are a serial execution from the loaded values to those in the storage
  -- server, as long as there are fewer calls than numbers.
  pub start_remote-Serial :
      (n : N) (m : M) (d : Dict String) (es : List Event)
      → length es + 1 < u64_mod
      → let w = run (far_store t) (far_certifier t u) (start_remote t u n m d) es in
        Serial (values_of d) w.history (value_at (table w.store.1))
  unfolding start_remote
  start_remote-Serial n m d es room =
      let (c, s) = Immediate.new_immediate_certifier (far_store t) (n, new_mem_store) in
      let (_, same) =
        new_immediate_certifier-InStep (far_store t) far_laws (n, new_mem_store)
          (λ k e h. absurd (cc (new_mem_store-IsEmpty k))) in
      let empty : IsEmpty (table s.1) = subst IsEmpty (sym same) new_mem_store-IsEmpty in
      let w = run (far_store t) (far_certifier t u) (start_remote t u n m d) es in
      subst (λ v. Serial v w.history (value_at (table w.store.1)))
        (value_at-loaded (table s.1) d empty)
        (load_and_sync-Serial m c s d 1 es (omega arith) (made_empty-le n)
          (λ k e h. absurd (cc (empty k))) room)
