-- ===== src/Storage/Mem.antt =====
-- pkg/storage/storage.go: `MemStore`. Its mutex makes each method one step, so a method is a
-- function on the map.
pub mod Laws
use ccas.Common.{
  ℕ, String, Bool, true, false, Option, none, some, List, [], ◌∷◌, leb, if◌then◌else◌,
}
use ccas.Common.Text.{decimal, quote, ◌++◌}
use ccas.Dict
use ccas.Dict.{Dict}
use ccas.Types.{CommitWrite, CommitRecord, ReadResult}
use ccas.Storage.{Entry, Store}

-- `type MemStore struct`; the field `data`
pub record MemStore : Type 0 where
  pub entries : Dict Entry

-- `NewMemStore`
abbrev pub new_mem_store : MemStore
new_mem_store = record { entries = [] }

found_result : Entry → ReadResult
found_result e = record { value = e.value; version = e.version; found = true }

-- `MemStore.Get`
unfoldable pub get : MemStore → String → ReadResult
unfolding found_result
get s key = elim (Dict.get s.entries key) [
  | none ↦ record { value = ""; version = 0; found = false }
  | some e ↦ found_result e
]

-- The error of `ApplyCommit`, for keys that `%q` prints as they are: it escapes quotes, backslashes
-- and the control characters of ASCII here, not the other runes that cannot be printed.
pub violation : CommitWrite → Entry → String
violation w existing =
    "version monotonicity violation on key "
    ++ (quote w.key
        ++ (": new version "
            ++ (decimal w.new_version ++ (" <= current version " ++ decimal existing.version))))

-- The first loop of `ApplyCommit`; the error of the first write that is not above its key's version.
unfoldable pub check_versions : Dict Entry → List CommitWrite → Option String
check_versions m [] = none
check_versions m (w ∷ ws) =
    let rest = check_versions m ws in
    elim (Dict.get m w.key) [
      | none ↦ rest
      | some existing ↦
          if leb w.new_version existing.version then some (violation w existing) else rest
    ]

-- The second loop of `ApplyCommit`.
unfoldable pub apply_writes : Dict Entry → List CommitWrite → Dict Entry
apply_writes m [] = m
apply_writes m (w ∷ ws) =
    apply_writes (Dict.set m w.key (record { value = w.value; version = w.new_version })) ws

-- `MemStore.ApplyCommit`
unfoldable pub apply_commit : MemStore → CommitRecord → MemStore × Option String
apply_commit s r = elim (check_versions s.entries r.writes) [
  | some err ↦ (s, some err)
  | none ↦ (record { entries = apply_writes s.entries r.writes }, none)
]

-- `MemStore.LoadInitialData`
unfoldable pub load_initial_data : MemStore → Dict String → MemStore
load_initial_data s d = record {
  entries = Dict.copy_range (λ v. record { value = v; version = 1 }) d s.entries;
}

-- `MemStore.DumpState`
unfoldable pub dump_state : MemStore → Dict ReadResult
unfolding found_result
dump_state s = Dict.copy_range found_result s.entries []

-- `*MemStore` as a `Store`
abbrev pub mem_store : Store MemStore
mem_store = record {
  get = λ s key. (s, get s key);
  apply_commit = apply_commit;
  load_initial_data = load_initial_data;
  dump_state = λ s. (s, dump_state s);
}
