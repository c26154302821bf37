-- ===== src/Storage/Mem/Laws.antt =====
-- `MemStore` keeps the contract of a `Store`.
use mathlib.Core.Path.{fun_ext}
use mathlib.Core.Option
use text.Mathlib.TextLemmas.{append-eq-nil_iff}
use ccas.Common.{
  text_ne, String, ◌≡◌, refl, ap, ◌∙◌, ◌≢◌, some, ◌⊎◌, inl, inr, none, List, [], ◌∷◌, arith, All,
  Option-cases,
}
use ccas.Dict
use ccas.Dict.{Dict, get-set, get-copy_range, copy_range-Distinct}
use ccas.Types.{CommitWrite, CommitRecord}
use ccas.Storage.{Entry}
use ccas.Storage.Contract.{
  Table, read_of, found_entry, IsFresh, write_entry, overwrite, loaded, StoreLaws,
}
use ccas.Storage.Mem.{
  MemStore, get, check_versions, violation, apply_writes, apply_commit, load_initial_data,
  dump_state, mem_store,
}

abbrev pub table : MemStore → Table
table s k = Dict.get s.entries k

check_versions-accepts :
    (m : Dict Entry) (ws : List CommitWrite)
    → All (IsFresh (Dict.get m)) ws
    → check_versions m ws ≡ none
unfolding check_versions
check_versions-accepts m [] h = refl
check_versions-accepts m (w ∷ ws) h = elim (Option-cases (Dict.get m w.key)) [
  | inl e ↦ ground (arith, check_versions-accepts m ws h.1)
  | inr (x, e) ↦ ground (arith, check_versions-accepts m ws h.1, h.0 x e)
]

check_versions-All :
    (m : Dict Entry) (ws : List CommitWrite)
    → check_versions m ws ≡ none
    → All (IsFresh (Dict.get m)) ws
unfolding check_versions
check_versions-All m [] h = tt
check_versions-All m (w ∷ ws) h = (λ x e. ground arith, check_versions-All m ws (ground arith))

apply_writes-overwrite :
    (m : Dict Entry) (ws : List CommitWrite) (k : String)
    → Dict.get (apply_writes m ws) k ≡ overwrite (Dict.get m) ws k
unfolding apply_writes overwrite
apply_writes-overwrite m [] k = refl
apply_writes-overwrite m (w ∷ ws) k =
    apply_writes-overwrite (Dict.set m w.key (write_entry w)) ws k
    ∙ ap (λ (t : Table). overwrite t ws k) (fun_ext λ j. get-set m w.key j (write_entry w))

-- ApplyCommit succeeds exactly when every write is above the version of its key. It then leaves
-- the table overwritten in the order of the record, and otherwise changes nothing.
pub apply_commit-atomic :
    (s : MemStore) (r : CommitRecord)
    → (((apply_commit s r).1 ≡ none)
        × All (IsFresh (table s)) r.writes
        × (table (apply_commit s r).0 ≡ overwrite (table s) r.writes))
      ⊎ (((apply_commit s r).1 ≢ none)
          × (¬ All (IsFresh (table s)) r.writes)
          × ((apply_commit s r).0 ≡ s))
unfolding apply_commit
apply_commit-atomic s r = elim (Option-cases (check_versions s.entries r.writes)) [
  | inl e ↦
      rw (e, apply_commit)
        (inl (
          refl,
          check_versions-All s.entries r.writes e,
          fun_ext (apply_writes-overwrite s.entries r.writes),
        ))
  | inr (x, e) ↦
      rw (e, apply_commit)
        (inr (λ p. cc, λ h. cc (check_versions-accepts s.entries r.writes h), refl))
]

pub load_initial_data-loaded :
    (s : MemStore) (d : Dict String) → table (load_initial_data s d) ≡ loaded (table s) d
unfolding load_initial_data loaded
load_initial_data-loaded s d = fun_ext λ k.
    ground
      (arith, get-copy_range {V = String} (λ v. record { value = v; version = 1 }) d s.entries k)

pub dump_state-get :
    (s : MemStore) (k : String) → Dict.get (dump_state s) k ≡ Option.map found_entry (table s k)
unfolding dump_state Dict.get
dump_state-get s k = ground (arith, get-copy_range found_entry s.entries [] k)

pub get-read_of : (s : MemStore) (k : String) → get s k ≡ read_of (table s k)
unfolding get
get-read_of s k = ground arith

pub dump_state-Distinct : (s : MemStore) → Dict.Distinct (dump_state s)
unfolding dump_state
dump_state-Distinct s = copy_range-Distinct found_entry s.entries [] tt

-- `MemStore` keeps the contract of the interface.
abbrev pub mem_laws : StoreLaws mem_store
mem_laws = record {
  table = table;
  get-result = get-read_of;
  get-table = λ s k. refl;
  apply-accepts = λ s r h. elim (apply_commit-atomic s r) [ inl a ↦ a.0 | inr a ↦ absurd (a.1 h) ];
  apply-table = λ s r h. elim (apply_commit-atomic s r) [ inl a ↦ a.2 | inr a ↦ absurd (a.0 h) ];
  apply-refuses = λ s r h. elim (apply_commit-atomic s r) [
    | inl a ↦ absurd (h a.0)
    | inr a ↦ (a.1, ap table a.2)
  ];
  load-table = load_initial_data-loaded;
  dump-result = dump_state-get;
  dump-Distinct = dump_state-Distinct;
  dump-table = λ s. refl;
}

violation_ne : (w : CommitWrite) (e : Entry) → violation w e ≢ ""
unfolding violation
violation_ne w e h =
    text_ne "version monotonicity violation on key " "" refl (append-eq-nil_iff.0 h).0

check_versions-ne_empty : (m : Dict Entry) (ws : List CommitWrite) → check_versions m ws ≢ some ""
unfolding check_versions
check_versions-ne_empty m [] h = cc
check_versions-ne_empty m (w ∷ ws) h = elim (Option-cases (Dict.get m w.key)) [
  | inl e ↦ ground (arith, check_versions-ne_empty m ws)
  | inr (x, e) ↦ ground (arith, check_versions-ne_empty m ws, violation_ne w x)
]

-- The error of `ApplyCommit` is never the empty text.
pub apply_commit-ne_empty : (s : MemStore) (r : CommitRecord) → (apply_commit s r).1 ≢ some ""
unfolding apply_commit
apply_commit-ne_empty s r = elim (Option-cases (check_versions s.entries r.writes)) [
  | inl e ↦ rw (e, apply_commit) (λ h. cc)
  | inr (x, e) ↦ rw (e, apply_commit) (λ h. check_versions-ne_empty s.entries r.writes (e ∙ h))
]
