-- ===== src/Service/Serializable.antt =====
-- Epoch certification is serializable, whatever the clients, the timer and the goroutine do and in
-- whatever order.
use ccas.Common.{
  ◌+◌, ◌<◌, ◌≡◌, refl, sym, subst, true, false, List, [], ◌∷◌, arith, length, All, if_both, u64_mod,
}
use ccas.Storage.{Store}
use ccas.Storage.Contract.{StoreLaws}
use ccas.Ccaas.Versions.{Coupled}
use ccas.Ccaas.Epoch.{PendingTxn}
use ccas.Ccaas.Epoch.Sorting.{Sorts}
use ccas.World.Serial.{Values, value_at, Serial}
use ccas.World.Invariant.{ClientOk}
use ccas.Service.{
  Loop, selecting, Service, Move, call, ticks, stops, drains, works, pending, tick, drain, move,
  run_moves,
}
use ccas.Service.Invariant.{Waits, ServiceOk}
use ccas.Service.Calls.{client_call-ServiceOk}
use ccas.Service.Counting.{move-commit_seq}
use ccas.Service.Working.{work-ServiceOk, swap_batch-ServiceOk}

module _ {S : Type 0} (st : Store S) (laws : StoreLaws st)
    (sort : List PendingTxn → List PendingTxn) (sorts : Sorts sort) where
  open laws use {table}

  tick-ServiceOk :
      (v : Values) (w : Service S) (l : Loop)
      → w.loop ≡ l
      → ServiceOk st laws v w
      → ServiceOk st laws v (tick l w)
  unfolding tick
  tick-ServiceOk v w selecting e ok = swap_batch-ServiceOk st laws sort v w false e ok
  tick-ServiceOk v w other e ok = ok

  drain-ServiceOk :
      (v : Values) (w : Service S) (l : Loop)
      → w.loop ≡ l
      → ServiceOk st laws v w
      → ServiceOk st laws v (drain l w)
  unfolding drain
  drain-ServiceOk v w selecting e ok =
      if_both (ServiceOk st laws v) w.stop_closed (swap_batch-ServiceOk st laws sort v w true e ok)
        ok
  drain-ServiceOk v w other e ok = ok

  move-ServiceOk :
      (v : Values) (w : Service S) (m : Move)
      → w.cert.commit_seq + 1 < u64_mod
      → ServiceOk st laws v w
      → ServiceOk st laws v (move st sort w m)
  unfolding move
  move-ServiceOk v w (call e) room ok = client_call-ServiceOk st laws sort v w e ok
  move-ServiceOk v w ticks room ok = tick-ServiceOk v w w.loop refl ok
  move-ServiceOk v w stops room ok = record {
    in_step = ok.in_step;
    all_ok = ok.all_ok;
    serial = ok.serial;
    asked = ok.asked;
  }
  move-ServiceOk v w drains room ok = drain-ServiceOk v w w.loop refl ok
  move-ServiceOk v w works room ok = work-ServiceOk st laws sort v w w.loop sorts refl room ok

  run_moves-ServiceOk :
      (v : Values) (w : Service S) (ms : List Move)
      → w.cert.commit_seq + length ms < u64_mod
      → ServiceOk st laws v w
      → ServiceOk st laws v (run_moves st sort w ms)
  unfolding run_moves
  run_moves-ServiceOk v w [] room ok = ok
  run_moves-ServiceOk v w (m ∷ ms) room ok =
      run_moves-ServiceOk v (move st sort w m) ms
        (omega (arith, move-commit_seq st laws sort v w m (omega arith) ok))
        (move-ServiceOk v w m (omega arith) ok)

  -- Start with no transaction, the certifier in step with the store, nothing pending, and a counter
  -- that stays below the last uint64. Whatever the clients, the timer, the goroutine and `Stop` then
  -- do, in whatever order, the committed transactions in the order of their certification are a
  -- serial execution from the first values of the store to the last.
  pub run_moves-Serial :
      (w : Service S) (ms : List Move)
      → Coupled w.cert.latest_version w.cert.commit_seq (table w.store)
      → w.clients ≡ []
      → w.history ≡ []
      → pending w ≡ []
      → w.cert.commit_seq + length ms < u64_mod
      → let w' = run_moves st sort w ms in
        Serial (value_at (table w.store)) w'.history (value_at (table w'.store))
  run_moves-Serial w ms in_step none_yet nothing idle room =
      (run_moves-ServiceOk (value_at (table w.store)) w ms room (record {
        in_step = in_step;
        all_ok = subst (All (ClientOk (table w.store))) (sym none_yet) tt;
        serial =
            subst (λ x. Serial (value_at (table w.store)) x (value_at (table w.store)))
              (sym nothing) refl;
        asked = subst (All (Waits w.clients)) (sym idle) tt;
      })).serial
