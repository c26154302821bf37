-- ===== src/Ccaas/Epoch/Panicking/Received.antt =====
-- What the clients of a batch receive when the deferred function has sent its aborts.
use mathlib.Core.Option
use mathlib.Core.List.{map-append, append-nil}
use ccas.Common.{
  ℕ, String, ◌≡◌, ◌≢◌, refl, sym, ap, subst, ◌∙◌, ◌⊎◌, inl, inr, Option, none, some, List, [], ◌∷◌,
  ◌++◌, arith, map, All, All-Memᴰ, All-of_Memᴰ, All-split, All-append, Bool-cases, eqb,
}
use ccas.Types.{TxnResult}
use ccas.Ccaas.Epoch.{PendingTxn}
use ccas.Ccaas.Epoch.Batch.{answer_of, ticket}
use ccas.Ccaas.Epoch.Panicking.{recovered, received, with_recovery}

head_or : ℕ × String → List (ℕ × String) → ℕ × String
head_or d [] = d
head_or d (x ∷ xs) = x

tail_of : List (ℕ × String) → List (ℕ × String)
tail_of [] = []
tail_of (x ∷ xs) = xs

-- The transaction's client receives a result with the transaction's id.
abbrev pub Answered : List (ℕ × TxnResult) → PendingTxn → Type 0
Answered sent p = Option.map (λ r. r.txn_id) (received p.result_ch sent) ≡ some p.req.txn_id

-- A channel belongs to one transaction.
abbrev pub OneEach : List PendingTxn → Type 0
OneEach ps = All (λ p. All (λ q. q.result_ch ≡ p.result_ch → q.req.txn_id ≡ p.req.txn_id) ps) ps

-- What a client receives, when the results answer these transactions in this order: the first on its
-- channel is one of its own.
received-first :
    (sent : List (ℕ × TxnResult)) (ps : List PendingTxn) (ch : ℕ) (id : String)
    → map answer_of sent ≡ map ticket ps
    → All (λ q. q.result_ch ≡ ch → q.req.txn_id ≡ id) ps
    → (Option.map (λ r. r.txn_id) (received ch sent) ≡ some id)
      ⊎ ((received ch sent ≡ none) × All (λ q. q.result_ch ≢ ch) ps)
unfolding received head_or tail_of
received-first [] [] ch id e h = inr (refl, tt)
received-first [] (p ∷ ps) ch id e h = absurd (cc)
received-first (a ∷ sent) [] ch id e h = absurd (cc)
received-first ((c, r) ∷ sent) (p ∷ ps) ch id e (own, h) =
    let same_ch : c ≡ p.result_ch = ap (λ l. (head_or (0, "") l).0) e in
    let same_id : r.txn_id ≡ p.req.txn_id = ap (λ l. (head_or (0, "") l).1) e in
    let rest = received-first sent ps ch id (ap tail_of e) h in
    elim (Bool-cases (eqb c ch)) [
      | inl here ↦
          let at : p.result_ch ≡ ch = ground (arith, same_ch) in
          inl (rw (here, received) (ap some (same_id ∙ own at)))
      | inr other ↦
          let apart : p.result_ch ≢ ch = λ f. ground (arith, same_ch, f) in
          rw (other, received)
            (elim rest [
              | inl found ↦ inl found
              | inr (none_yet, all) ↦ inr (none_yet, (apart, all))
            ])
    ]

received-append :
    (xs ys : List (ℕ × TxnResult)) (ch : ℕ)
    → received ch (xs ++ ys) ≡ (elim (received ch xs) [ some r ↦ some r | none ↦ received ch ys ])
unfolding received
received-append [] ys ch = refl
received-append ((c, r) ∷ xs) ys ch = ground (arith, received-append xs ys ch)

recovered-answers :
    (text : String) (ps : List PendingTxn) → map answer_of (recovered text ps) ≡ map ticket ps
unfolding recovered
recovered-answers text [] = refl
recovered-answers text (p ∷ ps) = cc (recovered-answers text ps)

-- Results for some of the batch and then, if a panic has ended the loop, for all of it.
with_recovery-answers :
    (before after batch : List PendingTxn) (ended : List (ℕ × TxnResult) × Option String)
    → before ++ after ≡ batch
    → map answer_of ended.0 ≡ map ticket before
    → (ended.1 ≡ none → after ≡ [])
    → (first : List PendingTxn) × (rest : List PendingTxn) × (first ++ rest ≡ batch)
      × (map answer_of (with_recovery batch ended) ≡ map ticket (first ++ batch))
unfolding with_recovery
with_recovery-answers before after batch (sent, none) split answers all_done =
    let whole : before ≡ batch =
      sym (append-nil before) ∙ (ap (λ l. before ++ l) (sym (all_done refl)) ∙ split) in
    ([], batch, refl, answers ∙ ap (map ticket) whole)
with_recovery-answers before after batch (sent, some text) split answers all_done = (
  before,
  after,
  split,
  map-append answer_of sent (recovered text batch)
      ∙ (ap (λ l. l ++ map answer_of (recovered text batch)) answers
          ∙ (ap (λ l. map ticket before ++ l) (recovered-answers text batch)
              ∙ sym (map-append ticket before batch))),
)

-- Everyone in the batch receives a result.
pub with_recovery-Answered :
    (before after batch : List PendingTxn) (ended : List (ℕ × TxnResult) × Option String)
    → OneEach batch
    → before ++ after ≡ batch
    → map answer_of ended.0 ≡ map ticket before
    → (ended.1 ≡ none → after ≡ [])
    → All (Answered (with_recovery batch ended)) batch
with_recovery-Answered before after batch ended one_each split answers all_done =
    let (first, rest, part, all) =
      with_recovery-answers before after batch ended split answers all_done in
    All-of_Memᴰ (Answered (with_recovery batch ended)) batch λ p m.
      let Own : PendingTxn → Type 0 =
        λ q. q.result_ch ≡ p.result_ch → q.req.txn_id ≡ p.req.txn_id in
      let own : All Own batch = All-Memᴰ _ batch one_each m in
      let (own_first, _) = All-split Own first rest (subst (All Own) (sym part) own) in
      elim (received-first (with_recovery batch ended) (first ++ batch) p.result_ch p.req.txn_id all
        (All-append Own first batch own_first own)) [
          | inl found ↦ found
          | inr (_, nobody) ↦
              let (_, not_there) =
                All-split (λ (q : PendingTxn). q.result_ch ≢ p.result_ch) first batch nobody in
              absurd
                (All-Memᴰ (λ (q : PendingTxn). q.result_ch ≢ p.result_ch) batch not_there m refl)
        ]
