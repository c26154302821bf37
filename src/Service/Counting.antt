-- ===== src/Service/Counting.antt =====
-- How far a move raises the commit counter.
use ccas.Common.{
  ℕ, ◌+◌, ◌≤◌, ◌<◌, ◌≡◌, refl, ap, inl, inr, List, [], ◌∷◌, arith, get_elem?, Bool-cases,
  Option-cases, u64_mod,
}
use ccas.Storage.{Store}
use ccas.Storage.Contract.{StoreLaws}
use ccas.Ccaas.Epoch
use ccas.Ccaas.Epoch.{PendingTxn}
use ccas.Ccaas.Epoch.Certify.{certify_txn-decides}
use ccas.Ccaas.Epoch.Syncing.{sync_from_storage-stays}
use ccas.World.{Client, Event, begins, reads, writes, commits, aborts, syncs}
use ccas.World.Serial.{Values}
use ccas.Service.{
  Loop, selecting, swapped, certifying, Service, Move, call, ticks, stops, drains, works, waits_in,
  pending, at_free_client, submit, deliver, swap_batch, begin_call, tick, drain, read_call, sync,
  sync_call, client_call, certify_next, work, move,
}
use ccas.Service.Invariant.{ServiceOk}

module _ {S : Type 0} (st : Store S) (laws : StoreLaws st)
    (sort : List PendingTxn → List PendingTxn) where
  open laws use {table}

  deliver-commit_seq :
      (i : ℕ) (res : _) (w : Service S) → (deliver i res w).cert.commit_seq ≡ w.cert.commit_seq
  unfolding deliver
  deliver-commit_seq i res w = ground arith

  work-commit_seq :
      (v : Values) (w : Service S) (l : Loop)
      → w.cert.commit_seq + 1 < u64_mod
      → ServiceOk st laws v w
      → (work st sort l w).cert.commit_seq ≤ w.cert.commit_seq + 1
  unfolding work certify_next
  work-commit_seq v w (certifying last claimed (p ∷ ps)) room ok =
      elim (certify_txn-decides st laws (record { cert = w.cert; claimed_keys = claimed }) w.store
        p.req ok.in_step room) [
          | inl (_, cm, _, _) ↦ omega (arith, deliver-commit_seq p.result_ch, cm.counter)
          | inr (_, _, same) ↦
              omega (arith, deliver-commit_seq p.result_ch, ap (λ r. r.0.commit_seq) same)
        ]
  work-commit_seq v w (certifying last claimed []) room ok = omega arith
  work-commit_seq v w (swapped last []) room ok = omega arith
  work-commit_seq v w (swapped last (p ∷ ps)) room ok = omega arith
  work-commit_seq v w other room ok = omega arith

  at_free_client-commit_seq :
      (w : Service S) (i : ℕ) (f : Client → Service S)
      → ((cl : Client) → (f cl).cert.commit_seq ≡ w.cert.commit_seq)
      → (at_free_client w i f).cert.commit_seq ≡ w.cert.commit_seq
  unfolding at_free_client
  at_free_client-commit_seq w i f h = elim (Bool-cases (waits_in (pending w) i)) [
    | inl busy ↦ rw (busy, at_free_client)
    | inr free ↦ elim (Option-cases (get_elem? w.clients i)) [
      | inl e ↦ rw (free, at_free_client) (rw (e, at_free_client))
      | inr (cl, e) ↦ rw (free, at_free_client) (rw (e, at_free_client) (h cl))
    ]
  ]

  sync_call-commit_seq :
      (v : Values) (w : Service S) (l : Loop)
      → ServiceOk st laws v w
      → (sync_call st sort l w).cert.commit_seq ≡ w.cert.commit_seq
  unfolding sync_call sync
  sync_call-commit_seq v w (certifying last claimed batch) ok = refl
  sync_call-commit_seq v w other ok = (sync_from_storage-stays st laws w.cert w.store ok.in_step).1

  client_call-commit_seq :
      (v : Values) (w : Service S) (e : Event)
      → ServiceOk st laws v w
      → (client_call st sort w e).cert.commit_seq ≡ w.cert.commit_seq
  unfolding client_call begin_call read_call submit Epoch.enqueue
  client_call-commit_seq v w begins ok = refl
  client_call-commit_seq v w (reads i key) ok = at_free_client-commit_seq w i _ (λ cl. refl)
  client_call-commit_seq v w (writes i key value) ok = at_free_client-commit_seq w i _ (λ cl. refl)
  client_call-commit_seq v w (commits i) ok = at_free_client-commit_seq w i _ (λ cl. ground arith)
  client_call-commit_seq v w (aborts i) ok = at_free_client-commit_seq w i _ (λ cl. refl)
  client_call-commit_seq v w syncs ok = sync_call-commit_seq v w w.loop ok

  tick-commit_seq : (w : Service S) (l : Loop) → (tick l w).cert.commit_seq ≡ w.cert.commit_seq
  unfolding tick swap_batch
  tick-commit_seq w selecting = refl
  tick-commit_seq w other = refl

  drain-commit_seq : (w : Service S) (l : Loop) → (drain l w).cert.commit_seq ≡ w.cert.commit_seq
  unfolding drain swap_batch
  drain-commit_seq w selecting = ground arith
  drain-commit_seq w other = refl

  -- Each move takes at most one number.
  pub move-commit_seq :
      (v : Values) (w : Service S) (m : Move)
      → w.cert.commit_seq + 1 < u64_mod
      → ServiceOk st laws v w
      → (move st sort w m).cert.commit_seq ≤ w.cert.commit_seq + 1
  unfolding move
  move-commit_seq v w (call e) room ok = omega (arith, client_call-commit_seq v w e ok)
  move-commit_seq v w ticks room ok = omega (arith, tick-commit_seq w w.loop)
  move-commit_seq v w stops room ok = omega arith
  move-commit_seq v w drains room ok = omega (arith, drain-commit_seq w w.loop)
  move-commit_seq v w works room ok = work-commit_seq v w w.loop room ok
