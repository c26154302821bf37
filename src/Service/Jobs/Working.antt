-- ===== src/Service/Jobs/Working.antt =====
-- The goroutine, its ticker and `Stop` keep the jobs in step with their transactions.
use mathlib.Core.List.{append-nil}
use ccas.Common.Counts.{count_if, count_if-append, count_if-Perm}
use ccas.Common.Pairs.{Paired, Paired-get, Paired-snd}
use ccas.Common.Positions.{holds_at-get_elem?, holds_at-set_elem_ne}
use ccas.Common.{
  ℕ, ◌+◌, ◌≤◌, String, ◌≡◌, ◌≢◌, refl, subst, ap, ◌∙◌, inl, inr, Bool, true, false, List, [], ◌∷◌,
  ◌++◌, arith, length, length-snoc, All, All-append, All-split, set_elem, set_elem-same, if_both,
  if◌then◌else◌, Bool-cases,
}
use ccas.Dict.{Dict}
use ccas.Types.{TxnResult}
use ccas.Storage.{Store}
use ccas.Ccaas.Epoch
use ccas.Ccaas.Epoch.{EpochCertifier, PendingTxn, EpochState}
use ccas.Ccaas.Epoch.Batch.{certify_txn-current_batch}
use ccas.Ccaas.Epoch.Sorting.{Sorts, Perm-All}
use ccas.Execution.{finish}
use ccas.World.{Client, Done}
use ccas.World.Settling.{done_of}
use ccas.Service.{
  Loop, selecting, swapped, certifying, returned, Service, ticks, stops, drains, works, taken,
  after_epoch, deliver, deliver_to, swap_batch, tick, drain, certify_next, work, move, pending,
}
use ccas.Service.Jobs.{Rules, uncommitted, is_of, owes, owing, owing-set, Expects, Joined}

finish-committed :
    (cl : Client) (res : TxnResult)
    → cl.txn.committed ≡ false
    → (finish cl.txn res).committed ≡ res.committed
finish-committed cl res h = elim (Bool-cases res.committed) [
  | inl won ↦ rw won refl
  | inr lost ↦ rw lost h
]

abbrev one_if : Bool → ℕ
one_if c = if c then 1 else 0

-- A commit is owed as soon as it is in the history.
all_told-answered :
    (c : Bool) (told o o' : ℕ) (h : List Done) (d : Done)
    → told + o ≡ length h
    → o' ≡ o + one_if c
    → told + o' ≡ length (if c then h ++ d ∷ [] else h)
all_told-answered true told o o' h d e f = let more = length-snoc h d in omega arith
all_told-answered false told o o' h d e f = omega arith

module _ {J : Type 0} (rules : Rules J) (told : ℕ) (js : List J) where
  open rules use {awaits, Ok, Good}

  owes-awaits : (j : J) (c : Client) → awaits j ≡ true → owes rules j c ≡ one_if c.txn.committed
  owes-awaits j c h = rw h refl

  -- The other transactions of the batch are those of other jobs.
  Expects-rest :
      (cs : List Client) (i : ℕ) (c : Client) (ps : List PendingTxn)
      → count_if (is_of i) ps ≡ 0
      → All (Expects rules js cs) ps
      → All (Expects rules js (set_elem cs i c)) ps
  Expects-rest cs i c [] free h = tt
  Expects-rest cs i c (p ∷ ps) free h =
      let ne : p.result_ch ≢ i = λ e. ground arith in
      (
        (h.0.0, holds_at-set_elem_ne uncommitted cs i p.result_ch c ne h.0.1),
        Expects-rest cs i c ps (ground arith) h.1,
      )

  -- What a result does to the clients and the history.
  deliver_to-Joined :
      (p : PendingTxn) (res : TxnResult) (cs : List Client) (h : List Done)
      → Expects rules js cs p
      → Paired Ok js cs
      → All Good h
      → told + owing rules js cs ≡ length h
      → let r = deliver_to p.result_ch res (cs, h) in
        (c : Client) × (r.0 ≡ set_elem cs p.result_ch c)
        × Paired Ok js r.0
        × All Good r.1
        × (told + owing rules js r.0 ≡ length r.1)
  unfolding deliver_to
  deliver_to-Joined p res cs h (waits, open_yet) jobs_ok goods all_told =
      let (j, e, await) = holds_at-get_elem? awaits js p.result_ch waits in
      let (cl, f, live) = holds_at-get_elem? uncommitted cs p.result_ch open_yet in
      let cl' : Client = record cl { txn = finish cl.txn res } in
      let (good, fits) =
        rules.answers j cl cl' await refl (ground arith)
          (Paired-get Ok js cs p.result_ch jobs_ok e f) in
      let live' : cl.txn.committed ≡ false = ground arith in
      let same : cl'.txn.committed ≡ res.committed = finish-committed cl res live' in
      let moved =
        subst
          (λ l.
            owing rules l (set_elem cs p.result_ch cl') + owes rules j cl
            ≡ owing rules js cs + owes rules j cl')
          (set_elem-same js p.result_ch e) (owing-set rules js cs p.result_ch j j cl cl' e f) in
      let before : owes rules j cl ≡ 0 = owes-awaits j cl await ∙ ap one_if live' in
      let after : owes rules j cl' ≡ one_if res.committed =
        owes-awaits j cl' await ∙ ap one_if same in
      rw (f, deliver_to)
        (
          cl',
          refl,
          Paired-snd Ok js cs p.result_ch j cl' jobs_ok e fits,
          if_both (All Good) res.committed (All-append Good h (done_of cl ∷ []) goods (good, tt))
              goods,
          all_told-answered res.committed told _ _ h (done_of cl) all_told (omega arith),
        )

  module _ {S : Type 0} (w : Service S) (ok : Joined rules told js w) where
    -- The pending transactions are the same.
    same-Joined :
        (cert : EpochCertifier) (loop : Loop) (stop_closed : Bool)
        → taken loop ++ cert.current_batch ≡ pending w
        → Joined rules told js (record w { cert = cert; loop = loop; stop_closed = stop_closed })
    same-Joined cert loop stop_closed e = record {
      jobs_ok = ok.jobs_ok;
      goods = ok.goods;
      expected = rw e ok.expected;
      once = rw e ok.once;
      all_told = ok.all_told;
    }

    -- The end of an epoch leaves nothing taken.
    done-Joined :
        (last : Bool)
        → taken w.loop ≡ []
        → Joined rules told js (record w { loop = after_epoch last })
    done-Joined true e = same-Joined w.cert _ w.stop_closed (rw e refl)
    done-Joined false e = same-Joined w.cert _ w.stop_closed (rw e refl)

    swap_batch-Joined :
        (last : Bool) → w.loop ≡ selecting → Joined rules told js (swap_batch last w)
    unfolding swap_batch
    swap_batch-Joined last e =
        same-Joined (record w.cert { current_batch = [] }) (swapped last w.cert.current_batch)
          w.stop_closed (rw (e, append-nil) refl)

    tick-Joined : (l : Loop) → w.loop ≡ l → Joined rules told js (tick l w)
    unfolding tick
    tick-Joined selecting e = swap_batch-Joined false e
    tick-Joined other e = ok

    drain-Joined : (l : Loop) → w.loop ≡ l → Joined rules told js (drain l w)
    unfolding drain
    drain-Joined selecting e =
        if_both (Joined rules told js) w.stop_closed (swap_batch-Joined true e) ok
    drain-Joined other e = ok

    module _ (st : Store S) (sort : List PendingTxn → List PendingTxn) (sorts : Sorts sort) where
      certify_next-Joined :
          (last : Bool) (claimed : Dict String) (p : PendingTxn) (ps : List PendingTxn)
          → taken w.loop ≡ p ∷ ps
          → Joined rules told js (certify_next st sort last claimed p ps w)
      unfolding certify_next deliver
      certify_next-Joined last claimed p ps t =
          let e : EpochState = record { cert = w.cert; claimed_keys = claimed } in
          let res = (Epoch.certify_txn st e w.store p.req).1 in
          let batch = certify_txn-current_batch st e w.store p.req in
          let rest = ps ++ w.cert.current_batch in
          let expected : All (Expects rules js w.clients) (p ∷ rest) = rw t at ok.expected in
          let once : (k : ℕ) → count_if (is_of k) (p ∷ rest) ≤ 1 = rw t at ok.once in
          let (c, same, jobs_ok, goods, all_told) =
            deliver_to-Joined p res w.clients w.history expected.0 ok.jobs_ok ok.goods
              ok.all_told in
          record {
            jobs_ok = jobs_ok;
            goods = goods;
            expected =
                rw (batch, same)
                  (Expects-rest w.clients p.result_ch c rest
                    (let one = once p.result_ch in ground arith) expected.1);
            once = rw batch (λ k. let one = once k in omega arith);
            all_told = all_told;
          }

      work-Joined : (l : Loop) → w.loop ≡ l → Joined rules told js (work st sort l w)
      unfolding work
      work-Joined selecting e = ok
      work-Joined returned e = ok
      work-Joined (swapped last []) e = done-Joined last (rw e refl)
      work-Joined (swapped last (p ∷ ps)) e =
          let expected : All (Expects rules js w.clients) ((p ∷ ps) ++ w.cert.current_batch) =
            rw e at ok.expected in
          let once : (k : ℕ) → count_if (is_of k) ((p ∷ ps) ++ w.cert.current_batch) ≤ 1 =
            rw e at ok.once in
          let (old, queued) =
            All-split (Expects rules js w.clients) (p ∷ ps) w.cert.current_batch expected in
          record {
            jobs_ok = ok.jobs_ok;
            goods = ok.goods;
            expected =
                All-append (Expects rules js w.clients) (sort (p ∷ ps)) _
                  (Perm-All (Expects rules js w.clients) _ (p ∷ ps) (λ q. hlevel)
                    (sorts.permutes (p ∷ ps)) old)
                  queued;
            once = λ k.
                let one = once k in
                let same = count_if-Perm (is_of k) (sorts.permutes (p ∷ ps)) in
                let before = count_if-append (is_of k) (p ∷ ps) w.cert.current_batch in
                let after = count_if-append (is_of k) (sort (p ∷ ps)) w.cert.current_batch in
                omega arith;
            all_told = ok.all_told;
          }
      work-Joined (certifying last claimed []) e = done-Joined last (rw e refl)
      work-Joined (certifying last claimed (p ∷ ps)) e =
          certify_next-Joined last claimed p ps (rw e refl)

      pub ticks-Joined : Joined rules told js (move st sort w ticks)
      unfolding move
      ticks-Joined = tick-Joined w.loop refl

      pub works-Joined : Joined rules told js (move st sort w works)
      unfolding move
      works-Joined = work-Joined w.loop refl

      pub stops-Joined : Joined rules told js (move st sort w stops)
      unfolding move
      stops-Joined = same-Joined w.cert w.loop true refl

      pub drains-Joined : Joined rules told js (move st sort w drains)
      unfolding move
      drains-Joined = drain-Joined w.loop refl
