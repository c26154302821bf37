-- ===== src/Service/Epochs.antt =====
-- An epoch that runs without interruption is `processEpoch`.
use ccas.Common.{
  String, ℕ, zero, suc, ◌+◌, ◌≤◌, ◌≡◌, refl, sym, ap, ◌∙◌, subst, Bool, true, false, List, [], ◌∷◌,
  arith, length, replicate, if◌then◌else◌,
}
use ccas.Dict.{Dict}
use ccas.Types.{TxnResult}
use ccas.Storage.{Store}
use ccas.Ccaas.Epoch
use ccas.Ccaas.Epoch.{PendingTxn, EpochCertifier, EpochState}
use ccas.World.{Client, Done}
use ccas.Service.{
  selecting, swapped, certifying, Service, Move, ticks, drains, works, after_epoch, deliver,
  deliver_to, swap_batch, tick, drain, certify_next, work, move, run_moves,
}

-- The results reach the clients in the order in which they were sent.
unfoldable pub deliver_all :
    List (ℕ × TxnResult) → List Client × List Done → List Client × List Done
deliver_all [] c = c
deliver_all ((i, result) ∷ sent) c = deliver_all sent (deliver_to i result c)

-- The service after `processEpoch` has left this certifier and store and has sent these results.
abbrev pub epoch_over :
    {S : Type 0} → Bool → Service S → (EpochCertifier × S) × List (ℕ × TxnResult) → Service S
epoch_over last w ((c, s), sent) = record w {
  cert = c;
  store = s;
  loop = after_epoch last;
  clients = (deliver_all sent (w.clients, w.history)).0;
  history = (deliver_all sent (w.clients, w.history)).1;
}

-- The case of the `select` that takes the epoch, and whether it can be taken.
abbrev pub opening : Bool → Move
opening last = if last then drains else ticks

abbrev pub can_open : {S : Type 0} → Bool → Service S → Bool
can_open last w = if last then w.stop_closed else true

module _ {S : Type 0} (st : Store S) (sort : List PendingTxn → List PendingTxn) where
  -- Outside an epoch `works` does nothing.
  works_idle :
      (n : ℕ) (w : Service S) (last : Bool)
      → run_moves st sort (record w { loop = after_epoch last }) (replicate n works)
        ≡ record w { loop = after_epoch last }
  unfolding run_moves move work
  works_idle zero w last = refl
  works_idle (suc n) w true = works_idle n w true
  works_idle (suc n) w false = works_idle n w false

  works_batch :
      (n : ℕ) (ps : List PendingTxn) (w : Service S) (last : Bool) (claimed : Dict String)
      → suc (length ps) ≤ n
      → let r =
          Epoch.process_batch st (record { cert = w.cert; claimed_keys = claimed }) w.store ps in
        run_moves st sort (record w { loop = certifying last claimed ps }) (replicate n works)
        ≡ epoch_over last w ((r.0.0.cert, r.0.1), r.1)
  unfolding run_moves move work certify_next deliver Epoch.process_batch deliver_all
  works_batch zero ps w last claimed h = absurd (omega arith)
  works_batch (suc n) [] w last claimed h = works_idle n w last
  works_batch (suc n) (p ∷ ps) w last claimed h =
      let ((e, s), result) =
        Epoch.certify_txn st (record { cert = w.cert; claimed_keys = claimed }) w.store p.req in
      let (clients, history) = deliver_to p.result_ch result (w.clients, w.history) in
      works_batch n ps (record w { cert = e.cert; store = s; clients = clients; history = history })
        last e.claimed_keys (omega arith)

  works_swapped :
      (n : ℕ) (b : List PendingTxn) (w : Service S) (last : Bool)
      → suc (suc (length (sort b))) ≤ n
      → run_moves st sort
          (record w { cert = record w.cert { current_batch = [] }; loop = swapped last b })
          (replicate n works)
        ≡ epoch_over last w
            (Epoch.process_epoch st sort (record w.cert { current_batch = b }) w.store)
  unfolding run_moves move work Epoch.process_epoch deliver_all
  works_swapped zero b w last h = absurd (omega arith)
  works_swapped (suc n) [] w last h =
      works_idle n (record w { cert = record w.cert { current_batch = [] } }) last
  works_swapped (suc n) (p ∷ ps) w last h =
      works_batch n (sort (p ∷ ps)) (record w { cert = record w.cert { current_batch = [] } }) last
        [] (omega arith)

  opening-swap_batch :
      (last : Bool) (w : Service S)
      → w.loop ≡ selecting
      → can_open last w ≡ true
      → move st sort w (opening last) ≡ swap_batch last w
  unfolding move tick drain
  opening-swap_batch true w is h =
      subst (λ x. drain x w ≡ swap_batch true w) (sym is) (rw (h, drain) refl)
  opening-swap_batch false w is h = subst (λ x. tick x w ≡ swap_batch false w) (sym is) refl

  -- Let the goroutine wait in its `select`, and let the ticker fire, or `stopCh` be closed and its
  -- case be taken. With nobody in between, two steps more than the epoch has transactions finish
  -- it: the certifier, the store and the results are those of `processEpoch`, every result has
  -- reached its client, and the goroutine waits again, or has returned.
  pub run_moves-process_epoch :
      (last : Bool) (w : Service S) (n : ℕ)
      → w.loop ≡ selecting
      → can_open last w ≡ true
      → length (sort w.cert.current_batch) + 2 ≤ n
      → run_moves st sort w (opening last ∷ replicate n works)
        ≡ epoch_over last w (Epoch.process_epoch st sort w.cert w.store)
  unfolding run_moves swap_batch
  run_moves-process_epoch last w n is h enough =
      ap (λ u. run_moves st sort u (replicate n works)) (opening-swap_batch last w is h)
      ∙ works_swapped n w.cert.current_batch w last (omega arith)
