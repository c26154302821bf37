-- ===== src/Demo/Conservation.antt =====
-- The demo's last line: the balances still add up to what was loaded.
use ccas.Common.{
  ℕ, zero, suc, ◌+◌, ◌*◌, ◌≤◌, ◌<◌, String, ◌≡◌, refl, sym, ap, subst, ◌∙◌, Option, none, some,
  List, [], arith, length, u64_mod,
}
use ccas.Common.Text.{decimal}
use ccas.Common.Decimal.{atoi}
use ccas.Dict
use ccas.Storage.{Entry, Store}
use ccas.Storage.Mem.{MemStore, mem_store}
use ccas.Ccaas.{Certifier}
use ccas.Ccaas.Immediate.{ImmediateCertifier, immediate_certifier}
use ccas.World.{World, Event, run}
use ccas.World.Serial.{Values, value_of, value_at, Serial}
use ccas.Deployment.{values_of, start_local}
use ccas.Deployment.Serializable.{start_local-Serial}
use ccas.Demo.Calls.{run_turns-run}
use ccas.Demo.Steps.{BankOk, run_turns-BankOk}
use ccas.Common.Sums.{sum_to}
use ccas.Demo.Sums.{balance_in, total, Serial-total}
use ccas.Storage.Contract.{StoreLaws, Table, loaded, read_of}
use ccas.Storage.Mem.Laws.{mem_laws, table}
use ccas.Deployment.{start_remote, load_and_sync, far_store, far_certifier}
use ccas.Deployment.Serializable.{start_remote-Serial, load_and_sync-Serial, far_laws}
use ccas.Grpc.{Transport, Delivers}
use ccas.Demo.{
  Turn, num_accounts, initial_balance, open_bank, initial_data, acct, run_turns, balance_sum,
}

read_of-value : (e : Option Entry) → (read_of e).value ≡ value_of e
read_of-value none = refl
read_of-value (some e) = refl

module _ {S : Type 0} (st : Store S) (laws : StoreLaws st) where
  -- The loop adds up what the store holds.
  pub balance_sum-table :
      (s : S) (n : ℕ)
      → (laws.table (balance_sum st s n).0 ≡ laws.table s)
        × ((balance_sum st s n).1 ≡ sum_to (balance_in (value_at (laws.table s))) n)
  unfolding balance_sum sum_to
  balance_sum-table s zero = (refl, refl)
  balance_sum-table s (suc n) =
      let (same, sum) = balance_sum-table s n in
      let s' = (balance_sum st s n).0 in
      (
        laws.get-table s' (acct n) ∙ same,
        ap (λ x. x + atoi (st.get s' (acct n)).1.value) sum
            ∙ ap (λ x. sum_to (balance_in (value_at (laws.table s))) n + atoi x)
                (ap (λ r. r.value) (laws.get-result s' (acct n))
                  ∙ (read_of-value (laws.table s' (acct n)) ∙ ap (λ t. value_at t (acct n)) same)),
      )

-- Whatever was in the store before.
pub total-loaded :
    (t : Table)
    → total (value_at (loaded t (initial_data num_accounts))) ≡ num_accounts * initial_balance
unfolding loaded sum_to initial_data Dict.set Dict.get acct decimal atoi
total-loaded t = refl

pub total-initial : total (values_of (initial_data num_accounts)) ≡ num_accounts * initial_balance
unfolding sum_to initial_data Dict.set Dict.get acct decimal atoi
total-initial = refl

module _ {C S : Type 0} (st : Store S) (laws : StoreLaws st) (cert : Certifier C S) where
  -- A run of transfers that is serializable keeps the sum.
  transfers-sum :
      (w : World C S) (v : Values) (ts : List Turn)
      → total v ≡ num_accounts * initial_balance
      → w.clients ≡ []
      → w.history ≡ []
      → ((es : List Event)
          → length es ≤ length ts
          → let w' = run st cert w es in Serial v w'.history (value_at (laws.table w'.store)))
      → let b = run_turns st cert (open_bank w) ts in
        ((balance_sum st b.world.store num_accounts).1 ≡ num_accounts * initial_balance)
        × (b.committed ≡ length b.world.history)
  transfers-sum w v ts start no_clients no_history serial =
      let b = run_turns st cert (open_bank w) ts in
      let (es, few, same) = run_turns-run st cert (open_bank w) ts in
      let opened : BankOk st cert (open_bank w) = record {
        jobs_ok = rw no_clients tt;
        transfers = rw no_history tt;
        counted = rw no_history refl;
      } in
      let ok = run_turns-BankOk st cert (open_bank w) ts opened in
      let found : Serial v b.world.history (value_at (laws.table b.world.store)) =
        subst (λ (w' : World C S). Serial v w'.history (value_at (laws.table w'.store))) (sym same)
          (serial es few) in
      (
        (balance_sum-table st laws b.world.store num_accounts).1
            ∙ (Serial-total _ _ _ ok.transfers found ∙ start),
        ok.counted,
      )

-- The demo with immediate certification in one process: however the calls of the transfers
-- interleave, and whichever of them conflict, the balances at the end add up to what was loaded, and
-- the number of commits that is shown is the number of transactions in the history, as long as
-- there are fewer calls than numbers.
pub local_demo-sum :
    (ts : List Turn)
    → length ts + 1 < u64_mod
    → let b =
        run_turns mem_store
          (immediate_certifier mem_store)
          (open_bank (start_local (initial_data num_accounts)))
          ts in
      ((balance_sum mem_store b.world.store num_accounts).1 ≡ num_accounts * initial_balance)
      × (b.committed ≡ length b.world.history)
unfolding start_local
local_demo-sum ts room =
    transfers-sum mem_store mem_laws (immediate_certifier mem_store)
      (start_local (initial_data num_accounts)) _ ts total-initial refl refl
      (λ es few. start_local-Serial (initial_data num_accounts) es (omega (arith, few)))

module _ {N M : Type 0} (t : Transport N) (u : Transport M) (t_ok : Delivers t)
    (u_ok : Delivers u) where
  -- The demo over a storage server and a certifier server, whose connections lose nothing: however
  -- the calls of the transfers interleave, the balances at the end add up to what was loaded, and the
  -- number of commits that is shown is the number of transactions in the history, as long as there
  -- are fewer calls than numbers.
  remote_demo-sum :
      (n : N) (m : M) (ts : List Turn)
      → length ts + 1 < u64_mod
      → let b =
          run_turns
            (far_store t)
            (far_certifier t u)
            (open_bank (start_remote t u n m (initial_data num_accounts)))
            ts in
        ((balance_sum (far_store t) b.world.store num_accounts).1 ≡ num_accounts * initial_balance)
        × (b.committed ≡ length b.world.history)
  unfolding start_remote load_and_sync
  remote_demo-sum n m ts room =
      transfers-sum (far_store t) (far_laws t u t_ok u_ok) (far_certifier t u)
        (start_remote t u n m (initial_data num_accounts)) _ ts total-initial refl refl
        (λ es few.
          start_remote-Serial t u t_ok u_ok n m (initial_data num_accounts) es (omega (arith, few)))

  -- The demo on servers that have been in use, over connections that lose nothing, with nobody
  -- else at work: whatever the store held and the certifier had certified, the balances at the end
  -- add up to what the demo has loaded, and the number of commits that is shown is the number of
  -- transactions in the history. The versions in the store are positive, and the number of calls
  -- leaves the counter below the last uint64.
  pub repeated_demo-sum :
      (m : M) (c : ImmediateCertifier) (s : N × MemStore) (high : ℕ) (ts : List Turn)
      → 1 ≤ high
      → c.commit_seq ≤ high
      → ((k : String) (e : Entry) → table s.1 k ≡ some e → (0 < e.version) × (e.version ≤ high))
      → length ts + high < u64_mod
      → let b =
          run_turns
            (far_store t)
            (far_certifier t u)
            (open_bank (load_and_sync t u (m, c) s (initial_data num_accounts)))
            ts in
        ((balance_sum (far_store t) b.world.store num_accounts).1 ≡ num_accounts * initial_balance)
        × (b.committed ≡ length b.world.history)
  unfolding load_and_sync
  repeated_demo-sum m c s high ts one low within room =
      transfers-sum (far_store t) (far_laws t u t_ok u_ok) (far_certifier t u)
        (load_and_sync t u (m, c) s (initial_data num_accounts)) _ ts (total-loaded (table s.1))
        refl refl
        (λ es few.
          load_and_sync-Serial t u t_ok u_ok m c s (initial_data num_accounts) high es one low
            within (omega (arith, few)))
