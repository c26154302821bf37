-- ===== src/World/Progress.antt =====
-- A transaction that no other commit overtakes commits.
use ccas.Common.{
  ℕ, ◌+◌, ◌<◌, String, ◌≡◌, refl, sym, ap, subst, ◌∙◌, inl, inr, Bool, true, false, some, List, [],
  ◌∷◌, ◌++◌, arith, length, All, eqb, not, get_elem?, u64_mod,
}
use ccas.Common.Positions.{At, At-append, At-last, At-set_elem, At-get_elem?}
use ccas.Storage.{Store}
use ccas.Storage.Contract.{Table, StoreLaws, overwrite}
use ccas.Ccaas.{Certifier}
use ccas.Ccaas.Outcome.{CertifierLaws}
use ccas.World.Stepping.{step-commits}
use ccas.World.Steps.{at_client_cases}
use ccas.Ccaas.Versions.{stamp}
use ccas.Execution
use ccas.Execution.{Txn, check_active, note_read, request}
use ccas.World.{
  Client, World, Event, begins, reads, writes, commits, aborts, syncs, begin_step, read_step,
  commit_step, sync_step, put_client, at_client, read_client, step, run,
}
use ccas.World.Settling.{done_of}
use ccas.World.Fresh.{IsFresh, write_client-IsFresh, read_client-IsFresh}

-- No commit, and no abort of client `i`.
abbrev pub is_quiet : ℕ → Event → Bool
is_quiet i (commits j) = false
is_quiet i (aborts j) = not (eqb i j)
is_quiet i _ = true

module _ {C S : Type 0} (st : Store S) (laws : StoreLaws st) (cert : Certifier C S)
    (decisions : CertifierLaws cert laws.table) where
  open laws use {table}
  open decisions use {InStep, counter}

  -- Client `i` may commit: the certifier has not moved since it began, and its reads are current.
  record IsOpen (i : ℕ) (t : Table) (seq : ℕ) (w : World C S) : Type 0 where
    in_step : InStep w.cert w.store
    counted : counter w.cert ≡ seq
    same : table w.store ≡ t
    at : At (IsFresh t) w.clients i

  module _ (i : ℕ) (t : Table) (seq : ℕ) where
    -- A call of client `j` that changes its transaction alone.
    put_client-IsOpen :
        (w : World C S) (j : ℕ) (cl : Client)
        → ((old : Client) → get_elem? w.clients j ≡ some old → i ≡ j → IsFresh t old → IsFresh t cl)
        → IsOpen i t seq w
        → IsOpen i t seq (put_client w j cl)
    put_client-IsOpen w j cl h ok = record {
      in_step = ok.in_step;
      counted = ok.counted;
      same = ok.same;
      at = At-set_elem (IsFresh t) w.clients i j cl h ok.at;
    }

    at_client-IsOpen :
        (w : World C S) (j : ℕ) (f : Client → World C S)
        → ((cl : Client) → get_elem? w.clients j ≡ some cl → IsOpen i t seq (f cl))
        → IsOpen i t seq w
        → IsOpen i t seq (at_client st cert w j f)
    at_client-IsOpen w j f h ok = at_client_cases st laws cert decisions (IsOpen i t seq) w j f ok h

    read_step-IsOpen :
        (w : World C S) (j : ℕ) (key : String) (cl : Client)
        → get_elem? w.clients j ≡ some cl
        → IsOpen i t seq w
        → IsOpen i t seq (read_step st cert w j key cl)
    unfolding read_step
    read_step-IsOpen w j key cl here ok =
        let (same, fresh) = read_client-IsFresh st laws w.store key cl in
        record {
          in_step = decisions.InStep-same w.cert w.store _ same ok.in_step;
          counted = ok.counted;
          same = same ∙ ok.same;
          at =
              At-set_elem (IsFresh t) w.clients i j _
                (λ old e _ h.
                  let is : old ≡ cl = cc (e, here) in
                  subst (λ x. IsFresh x cl → IsFresh x (read_client st w.store key cl).1) ok.same
                    fresh (subst (IsFresh t) is h))
                ok.at;
        }

    step-IsOpen :
        (w : World C S) (e : Event)
        → is_quiet i e ≡ true
        → IsOpen i t seq w
        → IsOpen i t seq (step st cert w e)
    unfolding step begin_step sync_step
    step-IsOpen w begins quiet ok = record {
      in_step = ok.in_step;
      counted = ok.counted;
      same = ok.same;
      at = At-append (IsFresh t) w.clients _ i ok.at;
    }
    step-IsOpen w (reads j key) quiet ok =
        at_client-IsOpen w j _ (λ cl here. read_step-IsOpen w j key cl here ok) ok
    step-IsOpen w (writes j key value) quiet ok =
        at_client-IsOpen w j _
          (λ cl here.
            put_client-IsOpen w j _
              (λ old e _ h.
                let is : old ≡ cl = cc (e, here) in
                write_client-IsFresh t key value cl (subst (IsFresh t) is h))
              ok)
          ok
    step-IsOpen w (commits j) quiet ok = absurd (cc)
    step-IsOpen w (aborts j) quiet ok =
        at_client-IsOpen w j _
          (λ cl here. put_client-IsOpen w j _ (λ old e is h. absurd (ground arith)) ok) ok
    step-IsOpen w syncs quiet ok =
        let (in_step, counted, same) = decisions.syncs w.cert w.store ok.in_step in
        record {
          in_step = in_step;
          counted = counted ∙ ok.counted;
          same = same ∙ ok.same;
          at = ok.at;
        }

    run-IsOpen :
        (w : World C S) (es : List Event)
        → All (λ e. is_quiet i e ≡ true) es
        → IsOpen i t seq w
        → IsOpen i t seq (run st cert w es)
    unfolding run
    run-IsOpen w [] quiet ok = ok
    run-IsOpen w (e ∷ es) quiet ok =
        run-IsOpen (step st cert w e) es quiet.1 (step-IsOpen w e quiet.0 ok)

  -- What the commit of a client does that may commit.
  abbrev Wins : Table → ℕ → World C S → Client → World C S → Type 0
  Wins t seq w cl w' =
      (w'.history ≡ w.history ++ done_of cl ∷ [])
      × (table w'.store ≡ overwrite t (stamp (seq + 1) cl.txn.write_set))

  commit_step-Wins :
      (i : ℕ) (w : World C S) (cl : Client)
      → InStep w.cert w.store
      → counter w.cert + 1 < u64_mod
      → IsFresh (table w.store) cl
      → Wins (table w.store) (counter w.cert) w cl (commit_step st cert w i cl)
  unfolding commit_step Execution.commit
  commit_step-Wins i w cl in_step room fresh =
      elim (decisions.decides w.cert w.store (request cl.txn) in_step room) [
        | inl done ↦
            rw (fresh.running, commit_step, Execution.commit, done.result) (refl, done.written)
        | inr (_, _, _, stale) ↦ absurd (stale fresh.current)
      ]

  -- The transaction that commits first after it began cannot be aborted by the certifier, whatever
  -- other transactions do meanwhile, short of committing: they may begin, read, write and abort, and
  -- the certifier may be synced. Its client does not abort it. When it commits, it enters the
  -- history, and its writes are in the store under the next number. The certifier is in step with the
  -- store at the beginning, and its counter is below the last uint64.
  pub first_commit-wins :
      (w : World C S) (es : List Event)
      → InStep w.cert w.store
      → counter w.cert + 1 < u64_mod
      → All (λ e. is_quiet (length w.clients) e ≡ true) es
      → let w' = run st cert w (begins ∷ es) in
        let w'' = step st cert w' (commits (length w.clients)) in
        (cl : Client) × (get_elem? w'.clients (length w.clients) ≡ some cl)
        × (w''.history ≡ w'.history ++ done_of cl ∷ [])
        × (table w''.store
            ≡ overwrite (table w.store) (stamp (counter w.cert + 1) cl.txn.write_set))
  unfolding run step begin_step Execution.begin check_active
  first_commit-wins w es in_step room quiet =
      let i = length w.clients in
      let t = table w.store in
      let seq = counter w.cert in
      let began : IsOpen i t seq (begin_step st cert w) = record {
        in_step = in_step;
        counted = refl;
        same = refl;
        at = At-last (IsFresh t) w.clients _ (record { current = tt; running = refl });
      } in
      let w' = run st cert w (begins ∷ es) in
      let ok : IsOpen i t seq w' = run-IsOpen i t seq (begin_step st cert w) es quiet began in
      let (cl, here, fresh) = At-get_elem? (IsFresh t) w'.clients i ok.at in
      let wins =
        commit_step-Wins i w' cl ok.in_step (omega (arith, ok.counted))
          (subst (λ x. IsFresh x cl) (sym ok.same) fresh) in
      let stepped = step-commits st cert w' i cl here in
      (
        cl,
        here,
        ap (λ u. u.history) stepped ∙ wins.0,
        ap (λ u. table u.store) stepped ∙ (wins.1 ∙ cc (ok.same, ok.counted)),
      )
