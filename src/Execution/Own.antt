-- ===== src/Execution/Own.antt =====
-- What a transaction sees of its own writes, and what its methods answer once it is over.
use ccas.Common.{
  String, ◌≡◌, refl, ◌∙◌, inl, inr, none, some, [], ◌∷◌, ◌++◌, arith, ◌==◌, text_cases,
  if◌then◌else◌,
}
use ccas.Dict
use ccas.Dict.{get-set}
use ccas.Storage.{Store}
use ccas.Ccaas.{Certifier}
use ccas.Execution.{Txn, TxnError, check_active, read_store, read, write, no_result, commit}

-- An active transaction after `Write`.
abbrev written : Txn → String → String → Txn
written txn key value = record txn {
  write_set = txn.write_set ++ record { key = key; value = value } ∷ [];
  write_buffer = Dict.set txn.write_buffer key value;
}

write-active :
    (txn : Txn) (key value : String)
    → check_active txn ≡ none
    → write txn key value ≡ (written txn key value, none)
unfolding write
write-active txn key value active = rw (active, write)

module _ {S : Type 0} (st : Store S) where
  read-buffered :
      (s : S) (txn : Txn) (j val : String)
      → check_active txn ≡ none
      → Dict.get txn.write_buffer j ≡ some val
      → read st s txn j ≡ ((s, txn), (val, none))
  unfolding read
  read-buffered s txn j val active e = rw (active, read) (rw (e, read))

  read_written :
      (s : S) (txn : Txn) (key value j : String)
      → check_active txn ≡ none
      → Dict.get (Dict.set txn.write_buffer key value) j ≡ Dict.get txn.write_buffer j
      → let r = read st s (written txn key value) j in
        (r.1 ≡ (read st s txn j).1) × (r.0.0 ≡ (read st s txn j).0.0)
  unfolding read read_store check_active
  read_written s txn key value j active e = ground arith

  -- After an active transaction has written a key it reads the written value there, without going to
  -- the store, and at every other key it reads what it would have read without the write.
  read-write :
      (s : S) (txn : Txn) (key value j : String)
      → check_active txn ≡ none
      → let r = read st s (write txn key value).0 j in
        let without = read st s txn j in
        (r.1 ≡ (if key == j then (value, none) else without.1))
        × (r.0.0 ≡ (if key == j then s else without.0.0))
  unfolding check_active
  read-write s txn key value j active =
      rw (write-active txn key value active) (elim (text_cases key j) [
        | inl (_, same) ↦
            let hit =
              read-buffered s (written txn key value) j value active
                (get-set txn.write_buffer key j value ∙ (rw same refl)) in
            rw (same, hit) (refl, refl)
        | inr (_, other) ↦ rw other (
            read_written s txn key value j active
              (get-set txn.write_buffer key j value ∙ (rw other refl)))
      ])

module _ {C S : Type 0} (st : Store S) (cert : Certifier C S) where
  -- Every method refuses the transaction with this error and leaves everything as it is.
  abbrev pub Refuses : Txn → TxnError → C → S → String → String → Type 0
  Refuses txn err c s key value =
      (read st s txn key ≡ ((s, txn), ("", some err)))
      × (write txn key value ≡ (txn, some err))
      × (commit cert c s txn ≡ (((c, s), txn), (no_result, some err)))
