-- ===== src/World/Calls.antt =====
-- The calls of one client, apart from its commit, keep its record right.
use ccas.Common.{String, ◌≡◌, refl, ap, ◌∙◌, inl, inr, arith}
use ccas.Storage.{Store}
use ccas.Storage.Contract.{Table, StoreLaws}
use ccas.Execution
use ccas.World.{Client, read_client, write_client, abort_client}
use ccas.World.Invariant.{ClientOk, ClientOk-same}
use ccas.World.Reading.{note_read-ClientOk, read_cases, read_store-shows}

pub write_client-ClientOk :
    (t : Table) (key value : String) (cl : Client)
    → ClientOk t cl
    → ClientOk t (write_client key value cl)
unfolding write_client Execution.write
write_client-ClientOk t key value cl h = ClientOk-same t cl.seen (ground arith) (ground arith) h

pub abort_client-ClientOk : (t : Table) (cl : Client) → ClientOk t cl → ClientOk t (abort_client cl)
unfolding abort_client Execution.abort
abort_client-ClientOk t cl h = ClientOk-same t cl.seen refl refl h

module _ {S : Type 0} (st : Store S) (laws : StoreLaws st) where
  open laws use {table}

  -- A read leaves the table alone.
  pub read_client-ClientOk :
      (s : S) (key : String) (cl : Client)
      → ClientOk (table s) cl
      → let r = read_client st s key cl in (table r.0 ≡ table s) × ClientOk (table s) r.1
  unfolding read_client
  read_client-ClientOk s key cl h = elim (read_cases st laws s cl.txn key) [
    | inl (goes, e) ↦
        let (same, noted, shown) = read_store-shows st laws s cl.txn key in
        (
          ap (λ r. table r.0.0) e ∙ same,
          rw (goes, e, noted, shown) (note_read-ClientOk (table s) key cl.txn cl.seen h),
        )
    | inr (stays, e) ↦ (ap (λ r. table r.0) e, rw (stays, e) h)
  ]
