-- ===== src/Service/Calls.antt =====
-- The calls of the clients, and `SyncFromStorage`, keep what holds of the service.
use mathlib.Core.Option
use ccas.Common.{
  ℕ, String, ◌≡◌, ap, inl, inr, false, some, List, All-append, All-split, set_elem-All,
  All-get_elem?, get_elem?, Bool-cases, Option-cases,
}
use ccas.Dict
use ccas.Dict.{Dict}
use ccas.Storage.{Store}
use ccas.Storage.Contract.{StoreLaws}
use ccas.Ccaas.Epoch
use ccas.Ccaas.Epoch.{PendingTxn, EpochState}
use ccas.Ccaas.Epoch.Syncing.{sync_from_storage-stays}
use ccas.Execution
use ccas.Execution.{request, finish}
use ccas.World.{Client, Event, begins, reads, writes, commits, aborts, syncs}
use ccas.World.Serial.{Values}
use ccas.World.Invariant.{ClientOk}
use ccas.World.Calls.{read_client-ClientOk, write_client-ClientOk, abort_client-ClientOk}
use ccas.Service.{
  Loop, certifying, Service, taken, waits_in, pending, set_client, at_free_client, submit,
  begin_call, read_call, sync, sync_call, client_call,
}
use ccas.Service.Invariant.{Waits, Waits-append, Waits-free, ServiceOk}

module _ {S : Type 0} (st : Store S) (laws : StoreLaws st)
    (sort : List PendingTxn → List PendingTxn) where
  open laws use {table}

  begin_call-ServiceOk :
      (v : Values) (w : Service S) → ServiceOk st laws v w → ServiceOk st laws v (begin_call w)
  unfolding begin_call Execution.begin Dict.get
  begin_call-ServiceOk v w ok = record {
    in_step = ok.in_step;
    all_ok =
        All-append (ClientOk (table w.store)) w.clients _ ok.all_ok
          (record { noted = λ k ver e. absurd (cc); tracked = tt }, tt);
    serial = ok.serial;
    asked = Waits-append w.clients _ (pending w) ok.asked;
  }

  sync-ServiceOk :
      (v : Values) (w : Service S) → ServiceOk st laws v w → ServiceOk st laws v (sync st sort w)
  unfolding sync
  sync-ServiceOk v w ok =
      let (in_step, _, same, batch) = sync_from_storage-stays st laws w.cert w.store ok.in_step in
      record {
        in_step = in_step;
        all_ok = rw same ok.all_ok;
        serial = rw same ok.serial;
        asked = rw batch ok.asked;
      }

  module _ (v : Values) (w : Service S) (i : ℕ) (cl : Client) (ok : ServiceOk st laws v w)
      (here : ClientOk (table w.store) cl) (free : waits_in (pending w) i ≡ false) where
    set_client-ServiceOk :
        (cl' : Client) → ClientOk (table w.store) cl' → ServiceOk st laws v (set_client w i cl')
    set_client-ServiceOk cl' good = record {
      in_step = ok.in_step;
      all_ok = set_elem-All (ClientOk (table w.store)) w.clients i cl' good ok.all_ok;
      serial = ok.serial;
      asked = Waits-free w.clients i cl' (pending w) free ok.asked;
    }

    read_call-ServiceOk : (key : String) → ServiceOk st laws v (read_call st sort w i key cl)
    unfolding read_call
    read_call-ServiceOk key =
        let (same, good) = read_client-ClientOk st laws w.store key cl here in
        record {
          in_step = rw same ok.in_step;
          all_ok = rw same (set_elem-All (ClientOk (table w.store)) w.clients i _ good ok.all_ok);
          serial = rw same ok.serial;
          asked = Waits-free w.clients i _ (pending w) free ok.asked;
        }

    submit-ServiceOk : get_elem? w.clients i ≡ some cl → ServiceOk st laws v (submit w i cl)
    unfolding submit Epoch.enqueue
    submit-ServiceOk e = elim (Option-cases (Execution.check_active cl.txn)) [
      | inl active ↦
          let (old, queued) =
            All-split (Waits w.clients) (taken w.loop) w.cert.current_batch ok.asked in
          rw (active, submit)
            (record {
              in_step = ok.in_step;
              all_ok = ok.all_ok;
              serial = ok.serial;
              asked = All-append (Waits w.clients) (taken w.loop) _ old (
                  All-append (Waits w.clients) w.cert.current_batch _ queued
                    (ap (λ o. Option.map (λ x. request x.txn) o) e, tt));
            })
      | inr (err, over) ↦ rw (over, submit) ok
    ]

  at_free_client_cases :
      (P : Service S → Type 0) (w : Service S) (i : ℕ) (f : Client → Service S)
      → P w
      → ((cl : Client)
          → get_elem? w.clients i ≡ some cl
          → waits_in (pending w) i ≡ false
          → P (f cl))
      → P (at_free_client w i f)
  unfolding at_free_client
  at_free_client_cases P w i f h k = elim (Bool-cases (waits_in (pending w) i)) [
    | inl busy ↦ rw (busy, at_free_client) h
    | inr free ↦ elim (Option-cases (get_elem? w.clients i)) [
      | inl e ↦ rw (free, at_free_client) (rw (e, at_free_client) h)
      | inr (cl, e) ↦ rw (free, at_free_client) (rw (e, at_free_client) (k cl e free))
    ]
  ]

  at_free_client-ServiceOk :
      (v : Values) (w : Service S) (i : ℕ) (f : Client → Service S)
      → ServiceOk st laws v w
      → ((cl : Client)
          → ClientOk (table w.store) cl
          → get_elem? w.clients i ≡ some cl
          → waits_in (pending w) i ≡ false
          → ServiceOk st laws v (f cl))
      → ServiceOk st laws v (at_free_client w i f)
  at_free_client-ServiceOk v w i f ok k =
      at_free_client_cases (ServiceOk st laws v) w i f ok
        λ cl e. k cl (All-get_elem? (ClientOk (table w.store)) w.clients i ok.all_ok e) e

  sync_call-ServiceOk :
      (v : Values) (w : Service S) (l : Loop)
      → ServiceOk st laws v w
      → ServiceOk st laws v (sync_call st sort l w)
  unfolding sync_call
  sync_call-ServiceOk v w (certifying last claimed batch) ok = ok
  sync_call-ServiceOk v w other ok = sync-ServiceOk v w ok

  pub client_call-ServiceOk :
      (v : Values) (w : Service S) (e : Event)
      → ServiceOk st laws v w
      → ServiceOk st laws v (client_call st sort w e)
  unfolding client_call
  client_call-ServiceOk v w begins ok = begin_call-ServiceOk v w ok
  client_call-ServiceOk v w (reads i key) ok =
      at_free_client-ServiceOk v w i _ ok
        (λ cl h e free. read_call-ServiceOk v w i cl ok h free key)
  client_call-ServiceOk v w (writes i key value) ok =
      at_free_client-ServiceOk v w i _ ok (λ cl h e free.
        set_client-ServiceOk v w i cl ok h free _
          (write_client-ClientOk (table w.store) key value cl h))
  client_call-ServiceOk v w (commits i) ok =
      at_free_client-ServiceOk v w i _ ok (λ cl h e free. submit-ServiceOk v w i cl ok h free e)
  client_call-ServiceOk v w (aborts i) ok = at_free_client-ServiceOk v w i _ ok (λ cl h e free.
      set_client-ServiceOk v w i cl ok h free _ (abort_client-ClientOk (table w.store) cl h))
  client_call-ServiceOk v w syncs ok = sync_call-ServiceOk v w w.loop ok
