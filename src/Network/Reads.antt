-- ===== src/Network/Reads.antt =====
-- Reads over a connection that may lose them.
use ccas.Common.{
  ℕ, ◌≤◌, ◌<◌, String, ◌≡◌, ◌≢◌, refl, ◌⊎◌, inl, inr, true, false, Option, none, some, ◌∷◌, arith,
  Option-cases, if◌then◌else◌,
}
use ccas.Dict
use ccas.Types.{ReadResult}
use ccas.Storage.{Entry, Store}
use ccas.Storage.Contract.{read_of, StoreLaws}
use ccas.Ccaas.Versions.{version_of}
use ccas.Execution
use ccas.Execution.{Txn, TxnError, check_active, note_read, read_store}
use ccas.World.{Client}
use ccas.World.Serial.{value_of}
use ccas.World.Invariant.{ClientOk}
use ccas.World.Reading.{first_read-ClientOk, note_read-first, note_read-again, shown_value}
use ccas.Grpc.{Transport, Fate, delivered, lost_request, lost_response, under, remote}
use ccas.Grpc.Storing.{grpc_store, get_remote, serve_get, decode_get}
use ccas.Network.{is_first}

abbrev pub shown : ReadResult → String
shown r = if r.found then r.value else ""

-- An entry is known by its version: a key at version 0 is not there.
empty_value :
    (o : Option Entry)
    → ((e : Entry) → o ≡ some e → 0 < e.version)
    → version_of o ≡ 0
    → value_of o ≡ ""
empty_value none pos h = refl
empty_value (some e) pos h = let above = pos e refl in absurd (omega arith)

-- What a read may show of the entry `now`: a version that is not above, and the value if it is the
-- same.
pub record Shows (now : Option Entry) (r : ReadResult) : Type 0 where
  pub entry : Option Entry
  pub result : r ≡ read_of entry
  pub not_above : version_of entry ≤ version_of now
  pub current : version_of now ≡ version_of entry → value_of now ≡ value_of entry

Shows-now : (now : Option Entry) {r : ReadResult} → r ≡ read_of now → Shows now r
Shows-now now e = record { entry = now; result = e; not_above = omega arith; current = λ h. refl }

Shows-nothing :
    (now : Option Entry) → ((e : Entry) → now ≡ some e → 0 < e.version) → Shows now (read_of none)
Shows-nothing now pos = record {
  entry = none;
  result = refl;
  not_above = omega arith;
  current = empty_value now pos;
}

module _ (key : String) (txn : Txn) where
  first :
      check_active txn ≡ none
      → Dict.get txn.write_buffer key ≡ none
      → Dict.get txn.read_versions key ≡ none
      → is_first txn key ≡ true
  unfolding is_first
  first active unbuffered e = ground arith

  again : (ver : ℕ) → Dict.get txn.read_versions key ≡ some ver → is_first txn key ≡ false
  unfolding is_first
  again ver e = ground arith

  -- The read does not go to the store.
  stays :
      (((err : TxnError) × (check_active txn ≡ some err))
        ⊎ ((val : String) × (Dict.get txn.write_buffer key ≡ some val)))
      → is_first txn key ≡ false
  unfolding is_first
  stays (inl (err, e)) = ground arith
  stays (inr (val, e)) = ground arith

module _ {N S : Type 0} (t : Transport N) (st : Store S) (laws : StoreLaws st) (n : N) (s : S)
    (key : String) (pos : (e : Entry) → laws.table s key ≡ some e → 0 < e.version) where
  open laws use {table}

  -- The store keeps its table, and the client sees its answer or that there is no such key.
  get_remote-Shows :
      let r = get_remote t st (n, s) key in (table r.0.1 ≡ table s) × Shows (table s key) r.1
  unfolding get_remote remote serve_get decode_get
  get_remote-Shows = at_fate (t.next n).1
    where
      at_fate :
          (fate : Fate)
          → let r = under fate (serve_get st) s key in
            (table r.0 ≡ table s) × Shows (table s key) (decode_get r.1)
      at_fate delivered = (laws.get-table s key, Shows-now (table s key) (laws.get-result s key))
      at_fate (lost_request err) = (refl, Shows-nothing (table s key) pos)
      at_fate (lost_response err) = (laws.get-table s key, Shows-nothing (table s key) pos)

  -- A read that goes to the store.
  read_store-ClientOk :
      (cl : Client)
      → check_active cl.txn ≡ none
      → Dict.get cl.txn.write_buffer key ≡ none
      → ClientOk (table s) cl
      → let r = read_store (grpc_store t st) (n, s) cl.txn key in
        let seen = if is_first cl.txn key then (key, r.1.0) ∷ cl.seen else cl.seen in
        (table r.0.0.1 ≡ table s) × ClientOk (table s) (record { txn = r.0.1; seen = seen })
  unfolding read_store
  read_store-ClientOk cl active unbuffered ok =
      let (same, shows) = get_remote-Shows in
      let o = shows.entry in
      elim (Option-cases (Dict.get cl.txn.read_versions key)) [
        | inr (ver, e) ↦
            (same, rw (again key cl.txn ver e, shows.result, note_read-again cl.txn key o ver e) ok)
        | inl e ↦ (
          same,
          rw
              (
                first key cl.txn active unbuffered e,
                shows.result,
                note_read-first cl.txn key o e,
                shown_value o,
              )
              (first_read-ClientOk (table s) key (version_of o) shows.not_above (value_of o) cl.txn
                cl.seen shows.current ok),
        )
      ]

  -- `Engine.Read`
  pub read-ClientOk :
      (cl : Client)
      → ClientOk (table s) cl
      → let r = Execution.read (grpc_store t st) (n, s) cl.txn key in
        let seen = if is_first cl.txn key then (key, r.1.0) ∷ cl.seen else cl.seen in
        (table r.0.0.1 ≡ table s) × ClientOk (table s) (record { txn = r.0.1; seen = seen })
  unfolding Execution.read
  read-ClientOk cl ok = elim (Option-cases (check_active cl.txn)) [
    | inr (err, e) ↦ rw (e, Execution.read) (refl, rw (stays key cl.txn (inl (err, e))) ok)
    | inl active ↦ elim (Option-cases (Dict.get cl.txn.write_buffer key)) [
      | inr (val, e) ↦
          rw (active, Execution.read)
            (rw (e, Execution.read) (refl, rw (stays key cl.txn (inr (val, e))) ok))
      | inl unbuffered ↦
          let done = read_store-ClientOk cl active unbuffered ok in
          rw (active, Execution.read) (rw (unbuffered, Execution.read) done)
    ]
  ]

module _ {N S : Type 0} (t : Transport N) (st : Store S) where
  -- A key that a transaction has read before, and has not written: if the connection loses the
  -- second read, `Engine.Read` returns the empty text and no error, and leaves the transaction as
  -- it was. Nothing that `Engine.Commit` sends later tells of it.
  pub lost_again-read :
      (n : N) (s : S) (txn : Txn) (key : String) (ver : ℕ)
      → check_active txn ≡ none
      → Dict.get txn.write_buffer key ≡ none
      → Dict.get txn.read_versions key ≡ some ver
      → (t.next n).1 ≢ delivered
      → let r = Execution.read (grpc_store t st) (n, s) txn key in
        (r.0.1 ≡ txn) × (r.1 ≡ ("", none))
  unfolding Execution.read read_store get_remote remote serve_get decode_get
  lost_again-read n s txn key ver active unbuffered known lost =
      rw (active, Execution.read) (rw (unbuffered, Execution.read) (at_fate (t.next n).1 lost))
    where
      at_fate :
          (fate : Fate)
          → fate ≢ delivered
          → let r = decode_get (under fate (serve_get st) s key).1 in
            (note_read txn key r ≡ txn)
            × ◌≡◌ {A = String × Option TxnError} (shown r, none) ("", none)
      at_fate delivered h = absurd (h refl)
      at_fate (lost_request err) h = (note_read-again txn key none ver known, refl)
      at_fate (lost_response err) h = (note_read-again txn key none ver known, refl)
