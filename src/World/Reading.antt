-- ===== src/World/Reading.antt =====
-- A read from the store keeps the client's record right.
use mathlib.Core.List.{Memᴰ}
use mathlib.Core.List.Memᴰ
use ccas.Common.{
  ℕ, ◌≤◌, String, ◌≡◌, refl, sym, ap, ◌∙◌, ◌⊎◌, inl, inr, true, false, Option, none, some, List, [],
  ◌∷◌, ◌++◌, arith, All-map, text_cases, Option-cases, if◌then◌else◌,
}
use ccas.Dict
use ccas.Dict.{get-set}
use ccas.Storage.{Entry, Store}
use ccas.Storage.Contract.{Table, read_of, StoreLaws}
use ccas.Ccaas.Versions.{version_of, version_at}
use ccas.Execution
use ccas.Execution.{Txn, check_active, note_read, read_store}
use ccas.World.{from_store}
use ccas.World.Serial.{value_of, value_at}
use ccas.World.Invariant.{ClientOk, entry_for}

shown_version :
    (o : Option Entry) → (if (read_of o).found then (read_of o).version else 0) ≡ version_of o
shown_version none = refl
shown_version (some e) = refl

pub shown_value :
    (o : Option Entry) → (if (read_of o).found then (read_of o).value else "") ≡ value_of o
shown_value none = refl
shown_value (some e) = refl

-- The first read of a key.
unfoldable pub first_read : Txn → String → ℕ → Txn
first_read txn key version = record txn {
  read_set = txn.read_set ++ record { key = key; version_seen = version } ∷ [];
  read_versions = Dict.set txn.read_versions key version;
}

pub note_read-first :
    (txn : Txn) (key : String) (o : Option Entry)
    → Dict.get txn.read_versions key ≡ none
    → note_read txn key (read_of o) ≡ first_read txn key (version_of o)
unfolding note_read first_read
note_read-first txn key none e = ground arith
note_read-first txn key (some x) e = ground arith

pub note_read-again :
    (txn : Txn) (key : String) (o : Option Entry) (ver : ℕ)
    → Dict.get txn.read_versions key ≡ some ver
    → note_read txn key (read_of o) ≡ txn
unfolding note_read
note_read-again txn key o ver e = ground arith

-- A version that may enter the read set, with the value that came with it.
module _ (t : Table) (key : String) (version : ℕ) (le : version ≤ version_at t key) where
  first_read-noted :
      (txn : Txn) (k : String) (ver : ℕ)
      → ((j : String) (v : ℕ)
          → Dict.get txn.read_versions j ≡ some v
          → Memᴰ (entry_for j v) txn.read_set × (v ≤ version_at t j))
      → Dict.get (first_read txn key version).read_versions k ≡ some ver
      → Memᴰ (entry_for k ver) (first_read txn key version).read_set × (ver ≤ version_at t k)
  unfolding first_read
  first_read-noted txn k ver old e = elim (text_cases key k) [
    | inl (same, hit) ↦
        let now : version ≡ ver = ground (arith, get-set txn.read_versions key k version) in
        (
          Memᴰ.append_right txn.read_set
              (Memᴰ.head (λ i. record { key = sym same i; version_seen = sym now i })),
          omega (arith, now, ap (version_at t) same),
        )
    | inr (_, miss) ↦
        let (m, old_le) = old k ver (ground (arith, get-set txn.read_versions key k version)) in
        (Memᴰ.append_left _ m, old_le)
  ]

  -- The record after the first read of the key.
  pub first_read-ClientOk :
      (value : String) (txn : Txn) (seen : List (String × String))
      → (version_at t key ≡ version → value_at t key ≡ value)
      → ClientOk t (record { txn = txn; seen = seen })
      → ClientOk t (record { txn = first_read txn key version; seen = (key, value) ∷ seen })
  unfolding first_read
  first_read-ClientOk value txn seen current ok = record {
    noted = λ k ver f. first_read-noted txn k ver ok.noted f;
    tracked = (
      (version, Memᴰ.append_right txn.read_set (Memᴰ.head refl), le, current),
      All-map seen (λ r h. (h.0, Memᴰ.append_left _ h.1, h.2, h.3)) ok.tracked,
    );
  }

-- The record after a read of `key` that goes to the store.
pub note_read-ClientOk :
    (t : Table) (key : String) (txn : Txn) (seen : List (String × String))
    → ClientOk t (record { txn = txn; seen = seen })
    → ClientOk t
        (record { txn = note_read txn key (read_of (t key)); seen = (key, value_at t key) ∷ seen })
note_read-ClientOk t key txn seen ok = elim (Option-cases (Dict.get txn.read_versions key)) [
  | inl e ↦ rw (note_read-first txn key (t key) e) (
      first_read-ClientOk t key (version_at t key) (omega arith) (value_at t key) txn seen
        (λ _. refl) ok)
  | inr (ver, e) ↦ rw (note_read-again txn key (t key) ver e) (record {
    noted = ok.noted;
    tracked = let (m, le) = ok.noted key ver e in ((ver, m, le, λ _. refl), ok.tracked);
  })
]

module _ {S : Type 0} (st : Store S) (laws : StoreLaws st) where
  open laws use {table}

  -- What `Engine.Read` does when it goes to the store.
  pub read_store-shows :
      (s : S) (txn : Txn) (key : String)
      → let r = read_store st s txn key in
        (table r.0.0 ≡ table s)
        × (r.0.1 ≡ note_read txn key (read_of (table s key)))
        × (r.1.0 ≡ value_at (table s) key)
  unfolding read_store
  read_store-shows s txn key = (
    laws.get-table s key,
    ap (note_read txn key) (laws.get-result s key),
    ap (λ r. if r.found then r.value else "") (laws.get-result s key) ∙ shown_value (table s key),
  )

  -- `Engine.Read` goes to the store, or leaves everything as it is.
  pub read_cases :
      (s : S) (txn : Txn) (key : String)
      → ((from_store txn key ≡ true) × (Execution.read st s txn key ≡ read_store st s txn key))
        ⊎ ((from_store txn key ≡ false) × ((Execution.read st s txn key).0 ≡ (s, txn)))
  unfolding Execution.read
  read_cases s txn key = ground arith
