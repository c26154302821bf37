-- ===== src/Service/Stopped.antt =====
-- After `Stop`: the goroutine has drained the batch once and returned, and nobody takes the next.
use ccas.Common.{
  ℕ, ◌≡◌, ◌≢◌, refl, sym, subst, ◌∙◌, inl, inr, true, false, none, some, List, [], ◌∷◌, ◌++◌, arith,
  get_elem?, get_elem?-set_elem_ne, get_elem?-append, Bool-cases, Option-cases,
}
use ccas.Storage.{Store}
use ccas.Ccaas.Epoch
use ccas.Ccaas.Epoch.{PendingTxn}
use ccas.Execution
use ccas.Execution.{request}
use ccas.World.{read_client, Client, Event, Done, begins, reads, writes, commits, aborts, syncs}
use ccas.Service.{
  returned, Service, Move, call, ticks, stops, drains, works, waits_in, pending, set_client,
  at_free_client, submit, begin_call, tick, drain, read_call, sync, sync_call, client_call, work,
  move, run_moves,
}

waits_in-append :
    (ps qs : List PendingTxn) (i : ℕ) → waits_in ps i ≡ true → waits_in (ps ++ qs) i ≡ true
unfolding waits_in
waits_in-append [] qs i h = absurd (cc)
waits_in-append (p ∷ ps) qs i h = ground (arith, waits_in-append ps qs i)

-- Of two clients, one blocked and one free.
waits_in-ne :
    (ps : List PendingTxn) (i j : ℕ) → waits_in ps i ≡ true → waits_in ps j ≡ false → j ≢ i
waits_in-ne ps i j h k e = cc

-- The goroutine has returned, and client `cl` at `i` waits for a result.
pub record Stuck {S : Type 0} (i : ℕ) (cl : Client) (history : List Done) (w : Service S)
    : Type 0 where
  pub over : w.loop ≡ returned
  pub waiting : waits_in w.cert.current_batch i ≡ true
  pub unchanged : get_elem? w.clients i ≡ some cl
  pub no_commit : w.history ≡ history

module _ {S : Type 0} (i : ℕ) (cl : Client) (history : List Done) where
  -- Another client's call does not touch it.
  Stuck-set_client :
      (w : Service S) (j : ℕ) (cl' : Client)
      → j ≢ i
      → Stuck i cl history w
      → Stuck i cl history (set_client w j cl')
  Stuck-set_client w j cl' ne h = record {
    over = h.over;
    waiting = h.waiting;
    unchanged = get_elem?-set_elem_ne w.clients j i cl' (λ e. ne (sym e)) ∙ h.unchanged;
    no_commit = h.no_commit;
  }

  Stuck-at_free_client :
      (w : Service S) (j : ℕ) (f : Client → Service S)
      → Stuck i cl history w
      → ((cl' : Client) → j ≢ i → Stuck i cl history (f cl'))
      → Stuck i cl history (at_free_client w j f)
  unfolding at_free_client
  Stuck-at_free_client w j f h k = elim (Bool-cases (waits_in (pending w) j)) [
    | inl busy ↦ rw (busy, at_free_client) h
    | inr free ↦ elim (Option-cases (get_elem? w.clients j)) [
      | inl e ↦ rw (free, at_free_client) (rw (e, at_free_client) h)
      | inr (cl', e) ↦
          rw (free, at_free_client)
            (rw (e, at_free_client)
              (k cl' (waits_in-ne w.cert.current_batch i j h.waiting (rw (h.over) at free))))
    ]
  ]

  Stuck-submit :
      (w : Service S) (j : ℕ) (cl' : Client)
      → Stuck i cl history w
      → Stuck i cl history (submit w j cl')
  unfolding submit Epoch.enqueue
  Stuck-submit w j cl' h = elim (Option-cases (Execution.check_active cl'.txn)) [
    | inl active ↦
        rw (active, submit)
          (record {
            over = h.over;
            waiting = waits_in-append w.cert.current_batch _ i h.waiting;
            unchanged = h.unchanged;
            no_commit = h.no_commit;
          })
    | inr (err, e) ↦ rw (e, submit) h
  ]

  module _ (st : Store S) (sort : List PendingTxn → List PendingTxn) where
    Stuck-client_call :
        (w : Service S) (e : Event)
        → Stuck i cl history w
        → Stuck i cl history (client_call st sort w e)
    unfolding client_call begin_call read_call sync_call sync Epoch.sync_from_storage
    Stuck-client_call w begins h = record {
      over = h.over;
      waiting = h.waiting;
      unchanged = get_elem?-append w.clients _ i h.unchanged;
      no_commit = h.no_commit;
    }
    Stuck-client_call w (reads j key) h = Stuck-at_free_client w j _ h (λ cl' ne.
        let c = Stuck-set_client w j (read_client st w.store key cl').1 ne h in
        record {
          over = c.over;
          waiting = c.waiting;
          unchanged = c.unchanged;
          no_commit = c.no_commit;
        })
    Stuck-client_call w (writes j key value) h =
        Stuck-at_free_client w j _ h (λ cl' ne. Stuck-set_client w j _ ne h)
    Stuck-client_call w (commits j) h =
        Stuck-at_free_client w j _ h (λ cl' ne. Stuck-submit w j cl' h)
    Stuck-client_call w (aborts j) h =
        Stuck-at_free_client w j _ h (λ cl' ne. Stuck-set_client w j _ ne h)
    Stuck-client_call w syncs h =
        subst (λ l. Stuck i cl history (sync_call st sort l w)) (sym h.over)
          (record {
            over = h.over;
            waiting = h.waiting;
            unchanged = h.unchanged;
            no_commit = h.no_commit;
          })

    Stuck-move :
        (w : Service S) (m : Move) → Stuck i cl history w → Stuck i cl history (move st sort w m)
    unfolding move tick drain work
    Stuck-move w (call e) h = Stuck-client_call w e h
    Stuck-move w ticks h = subst (λ l. Stuck i cl history (tick l w)) (sym h.over) h
    Stuck-move w stops h = record {
      over = h.over;
      waiting = h.waiting;
      unchanged = h.unchanged;
      no_commit = h.no_commit;
    }
    Stuck-move w drains h = subst (λ l. Stuck i cl history (drain l w)) (sym h.over) h
    Stuck-move w works h = subst (λ l. Stuck i cl history (work st sort l w)) (sym h.over) h

    run_moves-keeps_Stuck :
        (w : Service S) (ms : List Move)
        → Stuck i cl history w
        → Stuck i cl history (run_moves st sort w ms)
    unfolding run_moves
    run_moves-keeps_Stuck w [] h = h
    run_moves-keeps_Stuck w (m ∷ ms) h =
        run_moves-keeps_Stuck (move st sort w m) ms (Stuck-move w m h)

-- A transaction enters the end of the batch.
waits_in_last : (ps : List PendingTxn) (p : PendingTxn) → waits_in (ps ++ p ∷ []) p.result_ch ≡ true
unfolding waits_in
waits_in_last [] p = ground arith
waits_in_last (q ∷ ps) p = ground (arith, waits_in_last ps p)

at_free_client-free :
    {S : Type 0} (w : Service S) (i : ℕ) (cl : Client) (f : Client → Service S)
    → w.loop ≡ returned
    → waits_in w.cert.current_batch i ≡ false
    → get_elem? w.clients i ≡ some cl
    → at_free_client w i f ≡ f cl
unfolding at_free_client
at_free_client-free w i cl f over free here = rw (over, free, here)

submit-Stuck :
    {S : Type 0} (w : Service S) (i : ℕ) (cl : Client)
    → w.loop ≡ returned
    → get_elem? w.clients i ≡ some cl
    → Execution.check_active cl.txn ≡ none
    → Stuck i cl w.history (submit w i cl)
unfolding submit Epoch.enqueue
submit-Stuck w i cl over here active =
    rw (active, submit)
      (record {
        over = over;
        waiting =
            waits_in_last w.cert.current_batch (record { req = request cl.txn; result_ch = i });
        unchanged = here;
        no_commit = refl;
      })

module _ {S : Type 0} (st : Store S) (sort : List PendingTxn → List PendingTxn) where
  submit_call-Stuck :
      (w : Service S) (i : ℕ) (cl : Client)
      → w.loop ≡ returned
      → waits_in w.cert.current_batch i ≡ false
      → get_elem? w.clients i ≡ some cl
      → Execution.check_active cl.txn ≡ none
      → Stuck i cl w.history (move st sort w (call (commits i)))
  unfolding move client_call
  submit_call-Stuck w i cl over free here active =
      subst (Stuck i cl w.history) (sym (at_free_client-free w i cl (submit w i) over free here))
        (submit-Stuck w i cl over here active)

  -- Once the goroutine has returned, a client that submits an active transaction is never answered:
  -- whatever moves follow, it waits, its transaction stays as it was, and nothing commits.
  pub run_moves-Stuck :
      (w : Service S) (i : ℕ) (cl : Client) (ms : List Move)
      → w.loop ≡ returned
      → waits_in w.cert.current_batch i ≡ false
      → get_elem? w.clients i ≡ some cl
      → Execution.check_active cl.txn ≡ none
      → Stuck i cl w.history (run_moves st sort w (call (commits i) ∷ ms))
  unfolding run_moves
  run_moves-Stuck w i cl ms over free here active =
      run_moves-keeps_Stuck i cl w.history st sort _ ms
        (submit_call-Stuck w i cl over free here active)
