-- ===== src/Service/Jobs/Calling.antt =====
-- The calls of a job keep the jobs in step with their transactions.
use mathlib.Core.List.{append_assoc}
use ccas.Common.Counts.{count_if, count_if-append}
use ccas.Common.Pairs.{Paired-append, Paired-set, Paired-fst}
use ccas.Common.Positions.{holds_at-append, holds_at-set_elem, get_elem?-holds_at}
use ccas.Common.{
  ℕ, ◌+◌, ◌≤◌, String, ◌≡◌, refl, sym, subst, inl, inr, true, false, none, some, List, [], ◌∷◌,
  ◌++◌, arith, eqb, All, All-map, All-append, get_elem?, set_elem, set_elem-same, if◌then◌else◌,
  Bool-cases,
}
use ccas.Storage.{Store}
use ccas.Ccaas.Epoch
use ccas.Ccaas.Epoch.{PendingTxn}
use ccas.Execution
use ccas.Execution.{check_active, request}
use ccas.World.{
  Client, begins, reads, writes, commits, aborts, read_client, write_client, abort_client,
}
use ccas.Service.{
  Service, call, taken, waits_in, pending, set_client, at_free_client, submit, begin_call,
  read_call, client_call, move,
}
use ccas.Service.Jobs.{
  Rules, uncommitted, is_of, waits_in-none, owes, owing, owing-set, owing-append, Expects,
  Expects-free, Joined,
}

module _ {S : Type 0} (st : Store S) (sort : List PendingTxn → List PendingTxn) where
  at_free_client-free :
      (w : Service S) (i : ℕ) (f : Client → Service S) (cl : Client)
      → waits_in (pending w) i ≡ false
      → get_elem? w.clients i ≡ some cl
      → at_free_client w i f ≡ f cl
  unfolding at_free_client
  at_free_client-free w i f cl free e = rw (free, at_free_client) (rw (e, at_free_client) refl)

  module _ {J : Type 0} (rules : Rules J) (told : ℕ) (js : List J) (w : Service S)
      (ok : Joined rules told js w) where
    open rules use {awaits, Ok, Good}

    -- A transaction begins, with a job that awaits nothing.
    pub begins-Joined :
        (j : J)
        → awaits j ≡ false
        → Ok j (record { txn = (Execution.begin w.engine).1; seen = [] })
        → Joined rules told (js ++ j ∷ []) (move st sort w (call begins))
    unfolding move client_call begin_call
    begins-Joined j idle fits =
        let c : Client = record { txn = (Execution.begin w.engine).1; seen = [] } in
        record {
          jobs_ok = Paired-append Ok js w.clients j c ok.jobs_ok fits;
          goods = ok.goods;
          expected =
              All-map (pending w)
                (λ p h. (
                  holds_at-append awaits js (j ∷ []) p.result_ch h.0,
                  holds_at-append uncommitted w.clients (c ∷ []) p.result_ch h.1,
                ))
                ok.expected;
          once = ok.once;
          all_told =
              let more = owing-append rules js w.clients j c ok.jobs_ok in
              let none_owed : owes rules j c ≡ 0 = rw idle refl in
              let before = ok.all_told in omega arith;
        }

    module _ (i : ℕ) (j : J) (cl : Client) (at : get_elem? js i ≡ some j)
        (here : get_elem? w.clients i ≡ some cl) (free : waits_in (pending w) i ≡ false) where
      -- A call of a job that awaits nothing, and changes its client alone.
      client-Joined :
          (j' : J) (cl' : Client) (w' : Service S)
          → awaits j ≡ false
          → awaits j' ≡ false
          → Ok j' cl'
          → w'.clients ≡ set_elem w.clients i cl'
          → w'.history ≡ w.history
          → pending w' ≡ pending w
          → Joined rules told (set_elem js i j') w'
      client-Joined j' cl' w' idle idle' fits cs hs ps = record {
        jobs_ok = rw cs (Paired-set Ok js w.clients i j' cl' ok.jobs_ok fits);
        goods = rw hs ok.goods;
        expected =
            rw (ps, cs)
              (Expects-free rules js w.clients i j' cl' (pending w)
                (waits_in-none (pending w) i free) ok.expected);
        once = rw ps ok.once;
        all_told =
            let moved = owing-set rules js w.clients i j j' cl cl' at here in
            let before : owes rules j cl ≡ 0 = rw idle refl in
            let after : owes rules j' cl' ≡ 0 = rw idle' refl in
            let all = ok.all_told in rw (cs, hs) (omega arith);
      }

      pub reads-Joined :
          (j' : J) (key : String)
          → awaits j ≡ false
          → awaits j' ≡ false
          → Ok j' (read_client st w.store key cl).1
          → Joined rules told (set_elem js i j') (move st sort w (call (reads i key)))
      unfolding move client_call read_call
      reads-Joined j' key idle idle' fits =
          rw (at_free_client-free w i (read_call st sort w i key) cl free here) (
            client-Joined j' (read_client st w.store key cl).1 (read_call st sort w i key cl) idle
              idle' fits refl refl refl)

      pub writes-Joined :
          (j' : J) (key value : String)
          → awaits j ≡ false
          → awaits j' ≡ false
          → Ok j' (write_client key value cl)
          → Joined rules told (set_elem js i j') (move st sort w (call (writes i key value)))
      unfolding move client_call
      writes-Joined j' key value idle idle' fits =
          rw (at_free_client-free w i (λ c. set_client w i (write_client key value c)) cl free here)
            (client-Joined j' _ (set_client w i (write_client key value cl)) idle idle' fits refl
              refl refl)

      pub aborts-Joined :
          (j' : J)
          → awaits j ≡ false
          → awaits j' ≡ false
          → Ok j' (abort_client cl)
          → Joined rules told (set_elem js i j') (move st sort w (call (aborts i)))
      unfolding move client_call
      aborts-Joined j' idle idle' fits =
          rw (at_free_client-free w i (λ c. set_client w i (abort_client c)) cl free here)
            (client-Joined j' _ (set_client w i (abort_client cl)) idle idle' fits refl refl refl)

      -- The job changes, its client stays.
      job_expected : (j' : J) → All (Expects rules (set_elem js i j') w.clients) (pending w)
      job_expected j' =
          subst (λ cs. All (Expects rules (set_elem js i j') cs) (pending w))
            (set_elem-same w.clients i here)
            (Expects-free rules js w.clients i j' cl (pending w) (waits_in-none (pending w) i free)
              ok.expected)

      job_owing :
          (j' : J)
          → owing rules (set_elem js i j') w.clients + owes rules j cl
            ≡ owing rules js w.clients + owes rules j' cl
      job_owing j' =
          subst
            (λ cs.
              owing rules (set_elem js i j') cs + owes rules j cl
              ≡ owing rules js w.clients + owes rules j' cl)
            (set_elem-same w.clients i here) (owing-set rules js w.clients i j j' cl cl at here)

      -- The job has its answer, and counts it.
      pub counts-Joined :
          (j' : J)
          → awaits j ≡ true
          → awaits j' ≡ false
          → Ok j' cl
          → Joined rules (told + (if cl.txn.committed then 1 else 0)) (set_elem js i j') w
      counts-Joined j' had idle fits = record {
        jobs_ok = Paired-fst Ok js w.clients i j' cl ok.jobs_ok here fits;
        goods = ok.goods;
        expected = job_expected j';
        once = ok.once;
        all_told =
            let moved = job_owing j' in
            let before : owes rules j cl ≡ (if cl.txn.committed then 1 else 0) = rw had refl in
            let after : owes rules j' cl ≡ 0 = rw idle refl in let all = ok.all_told in omega arith;
      }

      -- The job commits, and awaits the answer.
      pub commits-Joined :
          (j' : J)
          → awaits j ≡ false
          → awaits j' ≡ true
          → check_active cl.txn ≡ none
          → Ok j' cl
          → Joined rules told (set_elem js i j') (move st sort w (call (commits i)))
      unfolding move client_call Epoch.enqueue submit check_active
      commits-Joined j' idle awaits' active fits =
          let p : PendingTxn = record { req = request cl.txn; result_ch = i } in
          let longer : taken w.loop ++ (w.cert.current_batch ++ p ∷ []) ≡ pending w ++ p ∷ [] =
            sym (append_assoc (taken w.loop) w.cert.current_batch (p ∷ [])) in
          let live : cl.txn.committed ≡ false = ground arith in
          rw (at_free_client-free w i (submit w i) cl free here) (
            rw (active, submit)
              (record {
                jobs_ok = Paired-fst Ok js w.clients i j' cl ok.jobs_ok here fits;
                goods = ok.goods;
                expected = rw longer (
                    All-append (Expects rules (set_elem js i j') w.clients) (pending w) (p ∷ [])
                      (job_expected j')
                      (
                        (
                          holds_at-set_elem awaits js i j' at awaits',
                          get_elem?-holds_at uncommitted w.clients i here (ground arith),
                        ),
                        tt,
                      ));
                once = rw longer (λ k.
                    let split = count_if-append (is_of k) (pending w) (p ∷ []) in
                    let one = ok.once k in
                    let none_yet = waits_in-none (pending w) i free in
                    counts_new k none_yet one split);
                all_told =
                    let moved = job_owing j' in
                    let before : owes rules j cl ≡ 0 = rw idle refl in
                    let after : owes rules j' cl ≡ 0 = rw (awaits', live) refl in
                    let all = ok.all_told in omega arith;
              }))
        where
          counts_new :
              (k : ℕ)
              → count_if (is_of i) (pending w) ≡ 0
              → count_if (is_of k) (pending w) ≤ 1
              → count_if
                  (is_of k)
                  (pending w ++ record { req = request cl.txn; result_ch = i } ∷ [])
                ≡ count_if (is_of k) (pending w)
                  + count_if (is_of k) (record { req = request cl.txn; result_ch = i } ∷ [])
              → count_if
                  (is_of k)
                  (pending w ++ record { req = request cl.txn; result_ch = i } ∷ [])
                ≤ 1
          counts_new k none_yet one split = elim (Bool-cases (eqb i k)) [
            | inl e ↦
                let same : i ≡ k = ground arith in
                let none_of_k = subst (λ n. count_if (is_of n) (pending w) ≡ 0) same none_yet in
                ground arith
            | inr ne ↦ ground arith
          ]
