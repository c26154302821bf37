-- ===== src/Service/Working.antt =====
-- The steps of `run` and `processEpoch` keep what holds of the service.
use mathlib.Core.List.{append-nil}
use ccas.Common.{
  ℕ, ◌+◌, ◌<◌, String, ◌≡◌, sym, ap, subst, ◌∙◌, inl, inr, Bool, some, List, [], ◌∷◌, ◌++◌, arith,
  All, All-map, All-append, All-split, All-get_elem?, get_elem?, set_elem, Option-cases,
  if◌then◌else◌, u64_mod, String-set,
}
use ccas.Dict.{Dict}
use ccas.Types.{TxnResult}
use ccas.Storage.{Store}
use ccas.Storage.Contract.{StoreLaws}
use ccas.Ccaas.Versions.{Coupled}
use ccas.Ccaas.Outcome.{Commits, Aborts}
use ccas.Ccaas.Epoch
use ccas.Ccaas.Epoch.{PendingTxn, EpochState}
use ccas.Ccaas.Epoch.Certify.{certify_txn-decides}
use ccas.Ccaas.Epoch.Batch.{certify_txn-current_batch}
use ccas.Ccaas.Epoch.Sorting.{Sorts, Perm-All}
use ccas.Execution.{request}
use ccas.World.{Client}
use ccas.World.Serial.{Values}
use ccas.World.Invariant.{ClientOk}
use ccas.World.Settling.{done_of, settled, Commits-Settles, Aborts-Settles}
use ccas.Service.{
  Loop, selecting, swapped, certifying, returned, Service, taken, after_epoch, deliver, deliver_to,
  swap_batch, certify_next, work,
}
use ccas.Service.Invariant.{Waits, request-finish, request_of-same, ServiceOk}

Waits-prop : (cs : List Client) (p : PendingTxn) → IsProp (Waits cs p)
Waits-prop cs p = hlevel String-set

-- A client that is asked for exists.
Waits-client :
    (cs : List Client) (p : PendingTxn)
    → Waits cs p
    → (cl : Client) × (get_elem? cs p.result_ch ≡ some cl) × (request cl.txn ≡ p.req)
Waits-client cs p h = elim (Option-cases (get_elem? cs p.result_ch)) [
  | inl e ↦ absurd (cc)
  | inr (cl, e) ↦ (cl, e, cc)
]

module _ {S : Type 0} (st : Store S) (laws : StoreLaws st)
    (sort : List PendingTxn → List PendingTxn) where
  open laws use {table}

  -- The service after the result for client `cl` of `p` has been sent.
  abbrev answered : Service S → EpochState → S → Loop → ℕ → Client → TxnResult → Service S
  answered w e s loop i cl res = record w {
    cert = e.cert;
    store = s;
    loop = loop;
    clients = set_elem w.clients i (settled cl res);
    history = if res.committed then w.history ++ done_of cl ∷ [] else w.history;
  }

  module _ (v : Values) (w : Service S) (ok : ServiceOk st laws v w) (last : Bool)
      (claimed : Dict String) (p : PendingTxn) (ps : List PendingTxn)
      (room : w.cert.commit_seq + 1 < u64_mod) where
    abbrev before : EpochState
    before = record { cert = w.cert; claimed_keys = claimed }

    abbrev after : (EpochState × S) × TxnResult
    after = Epoch.certify_txn st before w.store p.req

    module _ (cl : Client) (here : get_elem? w.clients p.result_ch ≡ some cl)
        (same_req : request cl.txn ≡ p.req)
        (rest : All (Waits w.clients) (ps ++ w.cert.current_batch)) where
      answered-asked :
          All
            (Waits (set_elem w.clients p.result_ch (settled cl after.1)))
            (ps ++ after.0.0.current_batch)
      answered-asked = rw (certify_txn-current_batch st before w.store p.req) (
          All-map (ps ++ w.cert.current_batch)
            (λ q h.
              request_of-same w.clients p.result_ch q.result_ch cl _ here
                (request-finish cl.txn after.1)
              ∙ h)
            rest)

      answered-ServiceOk : ServiceOk st laws v (
          answered w after.0.0 after.0.1
            (certifying last after.0.0.claimed_keys ps)
            p.result_ch
            cl
            after.1)
      answered-ServiceOk = elim (certify_txn-decides st laws before w.store p.req ok.in_step room) [
        | inl (in_step, cm, _, _) ↦
            let h =
              Commits-Settles v (table w.store) (table after.0.1) w.clients w.history p.result_ch cl
                after.1 ok_here ok.all_ok ok.serial ok.in_step.bounded
                (subst
                  (λ r.
                    Commits (table w.store) w.cert.commit_seq r after.0.0.commit_seq
                      (table after.0.1) after.1)
                  (sym same_req) cm) in
            record { in_step = in_step; all_ok = h.0; serial = h.1; asked = answered-asked }
        | inr (_, ab, same) ↦
            let h =
              Aborts-Settles v (table w.store) (table after.0.1) w.clients w.history p.result_ch cl
                after.1 ok_here ok.all_ok ok.serial
                (subst (λ r. Aborts r after.1) (sym same_req) ab) (ap (λ r. table r.1) same) in
            record {
              in_step =
                  subst
                    (λ (r : EpochState × S). Coupled r.0.latest_version r.0.commit_seq (table r.1))
                    (sym same) ok.in_step;
              all_ok = h.0;
              serial = h.1;
              asked = answered-asked;
            }
      ]
        where
          ok_here : ClientOk (table w.store) cl
          ok_here = All-get_elem? (ClientOk (table w.store)) w.clients p.result_ch ok.all_ok here

      certify_next-ServiceOk : ServiceOk st laws v (certify_next st sort last claimed p ps w)
      unfolding certify_next deliver
      certify_next-ServiceOk = rw (here, deliver_to) answered-ServiceOk

  -- The end of an epoch leaves nothing taken.
  taken-after_epoch : (last : Bool) → taken (after_epoch last) ≡ []
  taken-after_epoch last = ground arith

  done-ServiceOk :
      (v : Values) (w : Service S) (last : Bool)
      → All (Waits w.clients) w.cert.current_batch
      → ServiceOk st laws v w
      → ServiceOk st laws v (record w { loop = after_epoch last })
  done-ServiceOk v w last queued ok = record {
    in_step = ok.in_step;
    all_ok = ok.all_ok;
    serial = ok.serial;
    asked = rw (taken-after_epoch last) queued;
  }

  pub work-ServiceOk :
      (v : Values) (w : Service S) (l : Loop)
      → Sorts sort
      → w.loop ≡ l
      → w.cert.commit_seq + 1 < u64_mod
      → ServiceOk st laws v w
      → ServiceOk st laws v (work st sort l w)
  unfolding work
  work-ServiceOk v w selecting sorts e room ok = ok
  work-ServiceOk v w returned sorts e room ok = ok
  work-ServiceOk v w (swapped last []) sorts e room ok =
      done-ServiceOk v w last (rw e at ok.asked) ok
  work-ServiceOk v w (swapped last (p ∷ ps)) sorts e room ok =
      let asked : All (Waits w.clients) ((p ∷ ps) ++ w.cert.current_batch) = rw e at ok.asked in
      let (old, queued) = All-split (Waits w.clients) (p ∷ ps) w.cert.current_batch asked in
      record {
        in_step = ok.in_step;
        all_ok = ok.all_ok;
        serial = ok.serial;
        asked =
            All-append (Waits w.clients) (sort (p ∷ ps)) _
              (Perm-All (Waits w.clients) _ (p ∷ ps) (Waits-prop w.clients)
                (sorts.permutes (p ∷ ps)) old)
              queued;
      }
  work-ServiceOk v w (certifying last claimed []) sorts e room ok =
      done-ServiceOk v w last (rw e at ok.asked) ok
  work-ServiceOk v w (certifying last claimed (p ∷ ps)) sorts e room ok =
      let asked : All (Waits w.clients) ((p ∷ ps) ++ w.cert.current_batch) = rw e at ok.asked in
      let (cl, here, same_req) = Waits-client w.clients p asked.0 in
      certify_next-ServiceOk v w ok last claimed p ps room cl here same_req asked.1

  pub swap_batch-ServiceOk :
      (v : Values) (w : Service S) (last : Bool)
      → w.loop ≡ selecting
      → ServiceOk st laws v w
      → ServiceOk st laws v (swap_batch last w)
  unfolding swap_batch
  swap_batch-ServiceOk v w last e ok = record {
    in_step = ok.in_step;
    all_ok = ok.all_ok;
    serial = ok.serial;
    asked = rw append-nil (rw e at ok.asked);
  }
