-- ===== src/Ccaas/Epoch/Panicking/Answers.antt =====
-- With its deferred function `processEpoch` answers everyone, whatever panics.
use mathlib.Core.List.{Perm}
use mathlib.Core.List.Perm
use ccas.Common.{
  ℕ, String, ◌≡◌, refl, false, some, length, arith, Option, none, List, [], ◌∷◌, ◌++◌, map,
}
use ccas.Common.Text
use ccas.Common.Sorting.{Perm-length}
use ccas.Types.{TxnResult}
use ccas.Storage.{Store}
use ccas.Ccaas.Epoch.{PendingTxn, EpochCertifier, EpochState, process_batch}
use ccas.Ccaas.Epoch.Sorting.{Sorts}
use ccas.Ccaas.Epoch.Panicking.{Panics}
use ccas.Ccaas.Epoch.Panicking.Loop.{StopsAt}

abbrev OwnedBy : PendingTxn → PendingTxn → Type 0
OwnedBy p q = q.result_ch ≡ p.result_ch → q.req.txn_id ≡ p.req.txn_id

length-zero : (xs : List PendingTxn) → length xs ≡ 0 → xs ≡ []
length-zero [] h = refl
length-zero (x ∷ xs) h = absurd (omega (arith, h))

-- There is nothing to sort.
pub sort-none : (sort : List PendingTxn → List PendingTxn) → Sorts sort → sort [] ≡ []
sort-none sort sorts = length-zero (sort []) (Perm-length (sorts.permutes []))

-- The aborts that a panic sends to a batch, none without a panic.
abbrev pub told_of : Option String → List PendingTxn → List (ℕ × TxnResult)
told_of none batch = []
told_of (some text) batch =
    map
      (λ p. (
        p.result_ch,
        record {
          txn_id = p.req.txn_id;
          committed = false;
          commit_seq = 0;
          reason = Text.◌++◌ "epoch panic: " text;
        },
      ))
      batch

-- The state of an epoch at its beginning.
abbrev pub first_state : EpochCertifier → EpochState
first_state c = record { cert = record c { current_batch = [] }; claimed_keys = [] }

module _ {S : Type 0} (st : Store S) (may : Panics S) where
  -- What an epoch over the batch, in its order, has sent: the decisions on the transactions before
  -- the one that panics, as without a panic, and then the aborts.
  pub record Recovers (e : EpochState) (s : S) (batch : List PendingTxn)
      (sent : List (ℕ × TxnResult)) : Type 0 where
    pub before : List PendingTxn
    pub after : List PendingTxn
    pub stop : Option String
    pub split : before ++ after ≡ batch
    pub stops_at : let d = process_batch st e s before in StopsAt st may d.0.0 d.0.1 after stop
    pub sends : sent ≡ (process_batch st e s before).1 ++ told_of stop batch
