-- ===== src/World/Fresh.antt =====
-- A client that the certifier would let commit: nothing that it has read is out of date.
use ccas.Common.{String, ◌≡◌, refl, ap, ◌∙◌, inl, inr, none, List, All, All-append, Option-cases}
use ccas.Storage.{Store}
use ccas.Storage.Contract.{Table, StoreLaws, read_of}
use ccas.Ccaas.Versions.{IsCurrent}
use ccas.Dict
use ccas.Execution
use ccas.Execution.{Txn, check_active, note_read, request}
use ccas.World.{Client, read_client, write_client}
use ccas.World.Reading.{first_read, note_read-first, note_read-again, read_cases, read_store-shows}

-- The transaction goes on, and what it has read is still in the table.
pub record IsFresh (t : Table) (cl : Client) : Type 0 where
  pub current : All (IsCurrent t) cl.txn.read_set
  pub running : check_active cl.txn ≡ none

pub write_client-IsFresh :
    (t : Table) (key value : String) (cl : Client)
    → IsFresh t cl
    → IsFresh t (write_client key value cl)
unfolding write_client Execution.write check_active
write_client-IsFresh t key value cl h =
    rw (h.running, Execution.write) (record { current = h.current; running = h.running })

note_read-IsFresh :
    (t : Table) (key : String) (txn : Txn) (seen seen' : List (String × String))
    → IsFresh t (record { txn = txn; seen = seen })
    → IsFresh t (record { txn = note_read txn key (read_of (t key)); seen = seen' })
unfolding first_read check_active
note_read-IsFresh t key txn seen seen' h = elim (Option-cases (Dict.get txn.read_versions key)) [
  | inl e ↦ rw (note_read-first txn key (t key) e) (record {
    current = All-append (IsCurrent t) txn.read_set _ h.current (refl, tt);
    running = h.running;
  })
  | inr (ver, e) ↦
      rw (note_read-again txn key (t key) ver e)
        (record { current = h.current; running = h.running })
]

module _ {S : Type 0} (st : Store S) (laws : StoreLaws st) where
  open laws use {table}

  pub read_client-IsFresh :
      (s : S) (key : String) (cl : Client)
      → let r = read_client st s key cl in
        (table r.0 ≡ table s) × (IsFresh (table s) cl → IsFresh (table s) r.1)
  unfolding read_client
  read_client-IsFresh s key cl = elim (read_cases st laws s cl.txn key) [
    | inl (goes, e) ↦
        let (same, noted, shown) = read_store-shows st laws s cl.txn key in
        (
          ap (λ r. table r.0.0) e ∙ same,
          λ h. rw (goes, e, noted, shown) (note_read-IsFresh (table s) key cl.txn cl.seen _ h),
        )
    | inr (stays, e) ↦ (ap (λ r. table r.0) e, λ h. rw (stays, e) h)
  ]
