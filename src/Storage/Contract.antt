-- ===== src/Storage/Contract.antt =====
-- The contract of a `Store`: an abstract table that each method reads or updates.
use ccas.Common.{
  ◌<◌, String, ◌≡◌, ◌≢◌, true, false, Option, none, some, List, [], ◌∷◌, All, ◌==◌, if◌then◌else◌,
}
use mathlib.Core.Option
use ccas.Dict
use ccas.Dict.{Dict}
use ccas.Types.{CommitWrite, CommitRecord, ReadResult}
use ccas.Storage.{Entry, Store}

-- What the table holds at each key.
abbrev pub Table : Type 0
Table = String → Option Entry

-- What `Get` answers for a table entry.
abbrev pub read_of : Option Entry → ReadResult
read_of none = record { value = ""; version = 0; found = false }
read_of (some e) = record { value = e.value; version = e.version; found = true }

abbrev pub found_entry : Entry → ReadResult
found_entry e = read_of (some e)

-- A write may be applied: its version is above the one in the table.
abbrev pub IsFresh : Table → CommitWrite → Type 0
IsFresh t w = (e : Entry) → t w.key ≡ some e → e.version < w.new_version

abbrev pub write_entry : CommitWrite → Entry
write_entry w = record { value = w.value; version = w.new_version }

-- The table after one write.
abbrev pub put_write : Table → CommitWrite → Table
put_write t w j = if w.key == j then some (write_entry w) else t j

-- The table after the writes: the last write to a key counts.
unfoldable pub overwrite : Table → List CommitWrite → Table
overwrite t [] = t
overwrite t (w ∷ ws) = overwrite (put_write t w) ws

-- The table after `LoadInitialData`.
unfoldable pub loaded : Table → Dict String → Table
loaded t d k = elim (Dict.get d k) [
  | some v ↦ some (record { value = v; version = 1 })
  | none ↦ t k
]

-- The behaviour that a client of the interface may rely on.
pub record StoreLaws {S : Type 0} (st : Store S) : Type 0 where
  pub table : S → Table
  pub get-result : (s : S) (k : String) → (st.get s k).1 ≡ read_of (table s k)
  pub get-table : (s : S) (k : String) → table (st.get s k).0 ≡ table s
  pub apply-accepts :
      (s : S) (r : CommitRecord) → All (IsFresh (table s)) r.writes → (st.apply_commit s r).1 ≡ none
  pub apply-table :
      (s : S) (r : CommitRecord)
      → (st.apply_commit s r).1 ≡ none
      → table (st.apply_commit s r).0 ≡ overwrite (table s) r.writes
  pub apply-refuses :
      (s : S) (r : CommitRecord)
      → (st.apply_commit s r).1 ≢ none
      → (¬ All (IsFresh (table s)) r.writes) × (table (st.apply_commit s r).0 ≡ table s)
  pub load-table : (s : S) (d : Dict String) → table (st.load_initial_data s d) ≡ loaded (table s) d
  pub dump-result :
      (s : S) (k : String) → Dict.get (st.dump_state s).1 k ≡ Option.map found_entry (table s k)
  pub dump-Distinct : (s : S) → Dict.Distinct (st.dump_state s).1
  pub dump-table : (s : S) → table (st.dump_state s).0 ≡ table s
