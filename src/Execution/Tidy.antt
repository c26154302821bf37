-- ===== src/Execution/Tidy.antt =====
-- What the engine's methods keep of a transaction's own records.
use ccas.Common.{
  ℕ, String, ◌≡◌, refl, sym, ap, ◌∙◌, inl, inr, false, Option, none, some, List, [], ◌∷◌, ◌++◌,
  arith, Option-cases, ◌==◌, eq_iff, if◌then◌else◌, if_both,
}
use ccas.Dict
use ccas.Dict.{get-set}
use ccas.Types.{ReadEntry, WriteEntry, TxnResult, ReadResult}
use ccas.Storage.{Store}
use ccas.Ccaas.{Certifier}
use ccas.Execution.{
  Txn, Engine, begin, check_active, note_read, read_store, read, write, finish, request, commit,
  abort,
}

-- The version in the first entry for the key.
unfoldable pub version_noted : List ReadEntry → String → Option ℕ
version_noted [] k = none
version_noted (r ∷ rs) k = if r.key == k then some r.version_seen else version_noted rs k

-- The value of the last write to the key.
unfoldable pub last_write : List WriteEntry → String → Option String
last_write [] k = none
last_write (w ∷ ws) k = elim (last_write ws k) [
  | some v ↦ some v
  | none ↦ if w.key == k then some w.value else none
]

-- No key stands twice in the read set.
abbrev pub KeysDistinct : List ReadEntry → Type 0
KeysDistinct [] = Unit {0}
KeysDistinct (r ∷ rs) = (version_noted rs r.key ≡ none) × KeysDistinct rs

-- The maps of the transaction agree with the lists that `Commit` sends: the read set has each key
-- once, and until `Abort` the buffer has the last write to each key.
pub record IsTidy (txn : Txn) : Type 0 where
  pub noted : (k : String) → Dict.get txn.read_versions k ≡ version_noted txn.read_set k
  pub once : KeysDistinct txn.read_set
  pub buffered :
      (k : String) → txn.aborted ≡ false → Dict.get txn.write_buffer k ≡ last_write txn.write_set k

version_noted-append :
    (rs : List ReadEntry) (r : ReadEntry) (k : String)
    → version_noted (rs ++ r ∷ []) k ≡ elim (version_noted rs k) [
      | some v ↦ some v
      | none ↦ if r.key == k then some r.version_seen else none
    ]
unfolding version_noted
version_noted-append [] r k = refl
version_noted-append (x ∷ rs) r k = ground (arith, version_noted-append rs r k)

last_write-append :
    (ws : List WriteEntry) (w : WriteEntry) (k : String)
    → last_write (ws ++ w ∷ []) k ≡ (if w.key == k then some w.value else last_write ws k)
unfolding last_write
last_write-append [] w k = ground arith
last_write-append (x ∷ ws) w k = ground (arith, last_write-append ws w k)

KeysDistinct-append :
    (rs : List ReadEntry) (r : ReadEntry)
    → KeysDistinct rs
    → version_noted rs r.key ≡ none
    → KeysDistinct (rs ++ r ∷ [])
unfolding version_noted
KeysDistinct-append [] r d h = (refl, tt)
KeysDistinct-append (x ∷ rs) r d h = ground (
  arith,
  version_noted-append rs r x.key,
  eq_iff x.key r.key,
  eq_iff r.key x.key,
  KeysDistinct-append rs r d.1,
)

begin-IsTidy : (e : Engine) → IsTidy (begin e).1
unfolding begin Dict.get version_noted last_write
begin-IsTidy e = record { noted = λ k. refl; once = tt; buffered = λ k h. refl }

note_read-IsTidy :
    (txn : Txn) (key : String) (r : ReadResult) → IsTidy txn → IsTidy (note_read txn key r)
unfolding note_read
note_read-IsTidy txn key r h = elim (Option-cases (Dict.get txn.read_versions key)) [
  | inr (v, e) ↦ rw (e, note_read) h
  | inl e ↦
      let version = if r.found then r.version else 0 in
      rw (e, note_read)
        (record {
          noted = λ k. ground (
            arith,
            h.noted k,
            h.noted key,
            eq_iff key k,
            get-set txn.read_versions key k version,
            version_noted-append txn.read_set (record { key = key; version_seen = version }) k,
          );
          once = KeysDistinct-append txn.read_set _ h.once (sym (h.noted key) ∙ e);
          buffered = h.buffered;
        })
]

write-IsTidy : (txn : Txn) (key value : String) → IsTidy txn → IsTidy (write txn key value).0
unfolding write
write-IsTidy txn key value h = elim (Option-cases (check_active txn)) [
  | inr (err, e) ↦ rw (e, write) h
  | inl e ↦
      rw (e, write)
        (record {
          noted = h.noted;
          once = h.once;
          buffered = λ k live.
              get-set txn.write_buffer key k value
              ∙ (ap (λ o. if key == k then some value else o) (h.buffered k live)
                  ∙ sym (last_write-append txn.write_set (record { key = key; value = value }) k));
        })
]

finish-IsTidy : (txn : Txn) (res : TxnResult) → IsTidy txn → IsTidy (finish txn res)
finish-IsTidy txn res h =
    if_both IsTidy res.committed (record { noted = h.noted; once = h.once; buffered = h.buffered })
      (record { noted = h.noted; once = h.once; buffered = λ k live. absurd (cc) })

abort-IsTidy : (txn : Txn) → IsTidy txn → IsTidy (abort txn)
unfolding abort
abort-IsTidy txn h = record { noted = h.noted; once = h.once; buffered = λ k live. absurd (cc) }

module _ {S : Type 0} (st : Store S) where
  read-IsTidy : (s : S) (txn : Txn) (key : String) → IsTidy txn → IsTidy (read st s txn key).0.1
  unfolding read read_store
  read-IsTidy s txn key h = elim (Option-cases (check_active txn)) [
    | inr (err, e) ↦ rw (e, read) h
    | inl e ↦ elim (Option-cases (Dict.get txn.write_buffer key)) [
      | inr (v, f) ↦ rw (e, read) (rw (f, read) h)
      | inl f ↦ rw (e, read) (rw (f, read) (note_read-IsTidy txn key (st.get s key).1 h))
    ]
  ]

module _ {C S : Type 0} (cert : Certifier C S) where
  commit-IsTidy : (c : C) (s : S) (txn : Txn) → IsTidy txn → IsTidy (commit cert c s txn).0.1
  unfolding commit
  commit-IsTidy c s txn h = elim (Option-cases (check_active txn)) [
    | inr (err, e) ↦ rw (e, commit) h
    | inl e ↦ rw (e, commit) (finish-IsTidy txn (cert.submit_commit c s (request txn)).1 h)
  ]

module _ {C S : Type 0} (st : Store S) (cert : Certifier C S) where
  -- A transaction that `Begin` returns is tidy, and `Read`, `Write`, `Commit` and `Abort` keep a
  -- transaction tidy, on every branch and whatever the store and the certifier answer: its read set
  -- has each key once with the version that `readVersions` remembers, and until it is aborted its
  -- write buffer has the last value written to each key.
  pub methods-IsTidy :
      (e : Engine) (c : C) (s : S) (txn : Txn) (key value : String)
      → IsTidy txn
      → IsTidy (begin e).1
        × IsTidy (read st s txn key).0.1
        × IsTidy (write txn key value).0
        × IsTidy (commit cert c s txn).0.1
        × IsTidy (abort txn)
  methods-IsTidy e c s txn key value h = (
    begin-IsTidy e,
    read-IsTidy st s txn key h,
    write-IsTidy txn key value h,
    commit-IsTidy cert c s txn h,
    abort-IsTidy txn h,
  )
