-- ===== src/Demo/Epochs/Conservation.antt =====
-- The demo's last line under epoch certification.
use ccas.Common.{
  ℕ, ◌+◌, ◌*◌, ◌≤◌, ◌<◌, String, ◌≡◌, refl, sym, subst, ◌∙◌, inl, inr, some, Bool, true, false,
  List, [], ◌∷◌, arith, length, u64_mod, if_both, leb, get_elem?, Option-cases,
}
use ccas.Common.Decimal.{atoi}
use ccas.Storage.{Entry, Store}
use ccas.Storage.Mem.{MemStore, mem_store}
use ccas.Storage.Mem.Laws.{mem_laws, table}
use ccas.Grpc.{Transport, Delivers}
use ccas.Ccaas.Epoch
use ccas.Ccaas.Epoch.{EpochCertifier, PendingTxn}
use ccas.Ccaas.Epoch.Sorting.{Sorts}
use ccas.World.{Client}
use ccas.World.Serial.{Values, value_at, Serial}
use ccas.Deployment.{start_epochs, load_and_sync_epochs, far_store}
use ccas.Deployment.Epochs.{start_epochs-Serial, store_laws, load_and_sync_epochs-Serial}
use ccas.Service.{Service, Move, pending, ticks, works, stops, drains, run_moves}
use ccas.Demo.{
  Phase, begun, got_src, got_both, debited, credited, waiting, ended, Job, num_accounts,
  initial_balance, initial_data, balance_sum,
}
use ccas.Demo.Sums.{total, Serial-total}
use ccas.Demo.Conservation.{total-initial, total-loaded, balance_sum-table}
use ccas.Demo.Epochs.{
  EpochBank, EpochTurn, starts, goes, epoch_ticks, epoch_works, epoch_stops, epoch_drains,
  open_epoch_bank, start_transfer, choose, count_result, advance_transfer, resume, epoch_turn,
  run_epoch_turns,
}
use ccas.Service.Jobs.{owing}
use ccas.Service.Jobs.Moving.{Moves, Runs, Moves-Runs}
use ccas.Storage.Contract.{StoreLaws}
use ccas.Demo.Epochs.Waiting.{transfer_rules}
use ccas.Demo.Epochs.Advancing.{BankOk}
use ccas.Demo.Epochs.Steps.{run_epoch_turns-BankOk}

module _ {S : Type 0} (st : Store S) (sort : List PendingTxn → List PendingTxn) where
  advance_transfer-Moves :
      (b : EpochBank S) (i : ℕ) (job : Job) (cl : Client) (phase : Phase)
      → Moves st sort b.service (advance_transfer st sort b i job cl phase).service
  unfolding advance_transfer choose count_result
  advance_transfer-Moves b i job cl begun = inr (_, refl)
  advance_transfer-Moves b i job cl (got_src sv) = inr (_, refl)
  advance_transfer-Moves b i job cl (got_both sv dv) =
      if_both (λ (b' : EpochBank S). Moves st sort b.service b'.service) (leb job.amount (atoi sv))
        (inr (_, refl)) (inr (_, refl))
  advance_transfer-Moves b i job cl (debited sv dv) = inr (_, refl)
  advance_transfer-Moves b i job cl (credited sv dv) = inr (_, refl)
  advance_transfer-Moves b i job cl (waiting sv dv) =
      if_both (λ (b' : EpochBank S). Moves st sort b.service b'.service) cl.txn.committed (inl refl)
        (inl refl)
  advance_transfer-Moves b i job cl ended = inl refl

  resume-Moves :
      (b : EpochBank S) (i : ℕ) (busy : Bool)
      → Moves st sort b.service (resume st sort b i busy).service
  unfolding resume
  resume-Moves b i true = inl refl
  resume-Moves b i false = elim (Option-cases (get_elem? b.jobs i)) [
    | inl e ↦ rw (e, resume) (inl refl)
    | inr (job, e) ↦ elim (Option-cases (get_elem? b.service.clients i)) [
      | inl f ↦ rw (e, resume) (rw (f, resume) (inl refl))
      | inr (cl, f) ↦ rw (e, resume) (rw (f, resume) (advance_transfer-Moves b i job cl job.phase))
    ]
  ]

  epoch_turn-Moves :
      (b : EpochBank S) (t : EpochTurn) → Moves st sort b.service (epoch_turn st sort b t).service
  unfolding epoch_turn start_transfer
  epoch_turn-Moves b (starts x y z) =
      if_both (λ (b' : EpochBank S). Moves st sort b.service b'.service) _ (inl refl)
        (inr (_, refl))
  epoch_turn-Moves b (goes i) = resume-Moves b i _
  epoch_turn-Moves b epoch_ticks = inr (ticks, refl)
  epoch_turn-Moves b epoch_works = inr (works, refl)
  epoch_turn-Moves b epoch_stops = inr (stops, refl)
  epoch_turn-Moves b epoch_drains = inr (drains, refl)

  -- The turns are a run of moves.
  run_epoch_turns-Runs :
      (b : EpochBank S) (ts : List EpochTurn)
      → Runs st sort (length ts) b.service (run_epoch_turns st sort b ts).service
  unfolding run_epoch_turns run_moves
  run_epoch_turns-Runs b [] = ([], omega arith, refl)
  run_epoch_turns-Runs b (t ∷ ts) =
      Moves-Runs st sort (length ts) b.service (epoch_turn st sort b t).service _
        (epoch_turn-Moves b t) (run_epoch_turns-Runs (epoch_turn st sort b t) ts)

-- The commits that have been answered and not been counted yet.
abbrev pub uncounted : {S : Type 0} → EpochBank S → ℕ
uncounted b = owing transfer_rules b.jobs b.service.clients

module _ {S : Type 0} (st : Store S) (laws : StoreLaws st)
    (sort : List PendingTxn → List PendingTxn) where
  -- A run of transfers and epochs that is serializable keeps the sum, and counts the commits.
  pub epochs-sum :
      (w : Service S) (v : Values) (ts : List EpochTurn)
      → Sorts sort
      → total v ≡ num_accounts * initial_balance
      → w.clients ≡ []
      → w.history ≡ []
      → pending w ≡ []
      → ((ms : List Move)
          → length ms ≤ length ts
          → let w' = run_moves st sort w ms in Serial v w'.history (value_at (laws.table w'.store)))
      → let b = run_epoch_turns st sort (open_epoch_bank w) ts in
        ((balance_sum st b.service.store num_accounts).1 ≡ num_accounts * initial_balance)
        × (b.committed + uncounted b ≡ length b.service.history)
  epochs-sum w v ts sorts start no_clients no_history idle serial =
      let b = run_epoch_turns st sort (open_epoch_bank w) ts in
      let (ms, few, same) = run_epoch_turns-Runs st sort (open_epoch_bank w) ts in
      let opened : BankOk (open_epoch_bank w) = record {
        jobs_ok = rw no_clients tt;
        goods = rw no_history tt;
        expected = rw idle tt;
        once = rw idle (λ k. omega arith);
        all_told = rw no_history refl;
      } in
      let ok = run_epoch_turns-BankOk st sort (open_epoch_bank w) ts sorts opened in
      let found : Serial v b.service.history (value_at (laws.table b.service.store)) =
        subst (λ (w' : Service S). Serial v w'.history (value_at (laws.table w'.store))) (sym same)
          (serial ms few) in
      (
        (balance_sum-table st laws b.service.store num_accounts).1
            ∙ (Serial-total _ _ _ ok.goods found ∙ start),
        ok.all_told,
      )

-- The demo with epoch certification: however the calls of the transfers, the epochs and `Stop`
-- interleave, and whichever of the transfers conflict, the balances at the end add up to what was
-- loaded, and the number of commits that is shown, with those that have been answered and not been
-- counted yet, is the number of transactions in the history, as long as there are fewer steps than
-- numbers.
pub epoch_demo-sum :
    (sort : List PendingTxn → List PendingTxn) (ts : List EpochTurn)
    → Sorts sort
    → length ts + 1 < u64_mod
    → let b =
        run_epoch_turns mem_store sort
          (open_epoch_bank (start_epochs (initial_data num_accounts)))
          ts in
      ((balance_sum mem_store b.service.store num_accounts).1 ≡ num_accounts * initial_balance)
      × (b.committed + uncounted b ≡ length b.service.history)
unfolding start_epochs Epoch.new_epoch_certifier
epoch_demo-sum sort ts sorts room =
    epochs-sum mem_store mem_laws sort (start_epochs (initial_data num_accounts)) _ ts sorts
      total-initial refl refl refl
      (λ ms few. start_epochs-Serial sort (initial_data num_accounts) ms sorts (omega (arith, few)))

-- The demo on a storage server and a certifier server with epochs, both of which may have been in
-- use, over connections that lose nothing, with nobody else at work: whatever the store held and the
-- certifier had certified, the balances at the end add up to what the demo has loaded, and the
-- number of commits that is shown, with those that have been answered and not been counted yet, is
-- the number of transactions in the history. No transaction is pending at first, the versions in the
-- store are positive, and the number of steps leaves the counter below the last uint64.
pub remote_epoch_demo-sum :
    {N : Type 0} (t : Transport N) (sort : List PendingTxn → List PendingTxn) (c : EpochCertifier)
    (s : N × MemStore) (high : ℕ) (ts : List EpochTurn)
    → Delivers t
    → Sorts sort
    → c.current_batch ≡ []
    → 1 ≤ high
    → c.commit_seq ≤ high
    → ((k : String) (e : Entry) → table s.1 k ≡ some e → (0 < e.version) × (e.version ≤ high))
    → length ts + high < u64_mod
    → let b =
        run_epoch_turns
          (far_store t)
          sort
          (open_epoch_bank (load_and_sync_epochs t c s (initial_data num_accounts)))
          ts in
      ((balance_sum (far_store t) b.service.store num_accounts).1 ≡ num_accounts * initial_balance)
      × (b.committed + uncounted b ≡ length b.service.history)
unfolding load_and_sync_epochs Epoch.sync_from_storage
remote_epoch_demo-sum t sort c s high ts t_ok sorts idle one low within room =
    epochs-sum (far_store t) (store_laws t t_ok sort sorts) sort
      (load_and_sync_epochs t c s (initial_data num_accounts)) _ ts sorts (total-loaded (table s.1))
      refl refl idle
      (λ ms few.
        load_and_sync_epochs-Serial t t_ok sort sorts c s (initial_data num_accounts) high ms idle
          one low within (omega (arith, few)))
