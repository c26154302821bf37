-- ===== src/Demo/Steps.antt =====
-- Each turn of the demo keeps the jobs in step with their transactions.
use ccas.Common.{
  ℕ, ◌+◌, ◌%◌, ◌≤◌, String, length, length-snoc, ◌≡◌, refl, sym, ap, ◌∙◌, inl, inr, Bool, true,
  false, some, List, [], ◌∷◌, ◌++◌, arith, All, All-append, eqb, leb, if◌then◌else◌, get_elem?,
  set_elem, Option-cases, Bool-cases,
}
use ccas.Common.Pairs.{Paired-append, Paired-set, Paired-get}
use ccas.Common.Decimal.{atoi}
use ccas.Dict
use ccas.Types.{WriteEntry}
use ccas.Storage.{Store}
use ccas.Ccaas.{Certifier}
use ccas.Execution
use ccas.Execution.{Txn, check_active, request, finish}
use ccas.World.{
  Client, Done, Event, reads, writes, commits, aborts, step, begin_step, read_step, commit_step,
  read_client, write_client, abort_client,
}
use ccas.World.Stepping.{step-reads, step-writes, step-aborts, step-commits}
use ccas.Demo.Jobs.{transfer_reads, debit, credit, IsDrawn, IsTransfer, Has, At, JobOk, JobsOk}
use ccas.Demo.{
  Phase, begun, got_src, got_both, debited, credited, waiting, ended, Job, Bank, Turn, starts, goes,
  acct, num_accounts, start_job, go_on, read_text, decide, finish_job, advance_job, turn, run_turns,
}

pub write_client-Has :
    (cl : Client) (seen : List (String × String)) (ws : List WriteEntry) (key value : String)
    → Has cl seen ws
    → Has (write_client key value cl) seen (ws ++ record { key = key; value = value } ∷ [])
unfolding write_client Execution.write check_active
write_client-Has cl seen ws key value h = ground arith

module _ {S : Type 0} (st : Store S) where
  pub read_client-Has :
      (s : S) (cl : Client) (seen : List (String × String)) (ws : List WriteEntry) (key : String)
      → Has cl seen ws
      → cl.txn.write_buffer ≡ []
      → let cl' = (read_client st s key cl).1 in
        Has cl' ((key, (Execution.read st s cl.txn key).1.0) ∷ seen) ws
        × (cl'.txn.write_buffer ≡ [])
  unfolding read_client Execution.read Execution.read_store Execution.note_read check_active
      Dict.get
  read_client-Has s cl seen ws key h empty = ground arith

module _ {C S : Type 0} (st : Store S) (cert : Certifier C S) where
  -- The jobs are in step with their transactions, what has committed are transfers, and they are
  -- counted.
  pub record BankOk (b : Bank C S) : Type 0 where
    pub jobs_ok : JobsOk b.jobs b.world.clients
    pub transfers : All IsTransfer b.world.history
    pub counted : b.committed ≡ length b.world.history

  go_on-BankOk :
      (b : Bank C S) (i : ℕ) (job : Job) (e : Event) (phase : Phase) (cl' : Client)
      → (step st cert b.world e).clients ≡ set_elem b.world.clients i cl'
      → (step st cert b.world e).history ≡ b.world.history
      → JobOk (record job { phase = phase }) cl'
      → BankOk b
      → BankOk (go_on st cert b i job e phase)
  go_on-BankOk b i job e phase cl' cs hs good ok = record {
    jobs_ok = rw cs (Paired-set JobOk b.jobs b.world.clients i _ cl' ok.jobs_ok good);
    transfers = rw hs ok.transfers;
    counted = rw hs ok.counted;
  }

  -- A transfer settles: it is in the history, and counted, if it has committed.
  settle-BankOk :
      (c : Bool) (b : Bank C S) (d : Done) (b' : Bank C S)
      → IsTransfer d
      → JobsOk b'.jobs b'.world.clients
      → b'.world.history ≡ (if c then b.world.history ++ d ∷ [] else b.world.history)
      → b'.committed ≡ b.committed
      → BankOk b
      → BankOk (
          if c
          then record b' { committed = b.committed + 1 }
          else record b' { aborted = b.aborted + 1 })
  settle-BankOk true b d b' is good e same ok = record {
    jobs_ok = good;
    transfers = rw e (All-append IsTransfer b.world.history (d ∷ []) ok.transfers (is, tt));
    counted =
        let now = length-snoc b.world.history d in let before = ok.counted in rw e (omega arith);
  }
  settle-BankOk false b d b' is good e same ok = record {
    jobs_ok = good;
    transfers = rw e ok.transfers;
    counted = same ∙ (ok.counted ∙ ap length (sym e));
  }

  module _ (b : Bank C S) (i : ℕ) (cl : Client) (here : get_elem? b.world.clients i ≡ some cl) where
    module _ (job : Job) (drawn : IsDrawn job) (ok : BankOk b) where
      read_turn-BankOk :
          (a : ℕ) (seen : List (String × String)) (phase : Phase)
          → Has cl seen []
          → cl.txn.write_buffer ≡ []
          → ((cl' : Client)
              → Has cl' ((acct a, read_text st cert b cl a) ∷ seen) []
              → cl'.txn.write_buffer ≡ []
              → At job cl' phase)
          → BankOk (go_on st cert b i job (reads i (acct a)) phase)
      unfolding read_step
      read_turn-BankOk a seen phase has empty k =
          let (has', empty') = read_client-Has st b.world.store cl seen [] (acct a) has empty in
          go_on-BankOk b i job (reads i (acct a)) phase (read_client st b.world.store (acct a) cl).1
            (ap (λ w. w.clients) (step-reads st cert b.world i cl here (acct a)))
            (ap (λ w. w.history) (step-reads st cert b.world i cl here (acct a)))
            (drawn, k _ has' empty') ok

      -- Only the phase and its record matter.
      write_turn-BankOk :
          (key value : String) (phase : Phase)
          → At job (write_client key value cl) phase
          → BankOk (go_on st cert b i job (writes i key value) phase)
      write_turn-BankOk key value phase at =
          go_on-BankOk b i job (writes i key value) phase (write_client key value cl)
            (ap (λ w. w.clients) (step-writes st cert b.world i cl here key value))
            (ap (λ w. w.history) (step-writes st cert b.world i cl here key value)) (drawn, at) ok

      decide-BankOk :
          (sv dv : String)
          → Has cl (transfer_reads job sv dv) []
          → BankOk (decide st cert b i job sv dv)
      unfolding decide
      decide-BankOk sv dv has = elim (Bool-cases (leb job.amount (atoi sv))) [
        | inl enough ↦ rw enough (
            write_turn-BankOk (acct job.src) _ (debited sv dv) (
              write_client-Has cl (transfer_reads job sv dv) [] (acct job.src) _ has,
              ground arith,
            ))
        | inr short ↦
            let moved =
              go_on-BankOk b i job (aborts i) ended (abort_client cl)
                (ap (λ w. w.clients) (step-aborts st cert b.world i cl here))
                (ap (λ w. w.history) (step-aborts st cert b.world i cl here)) (drawn, tt) ok in
            rw short (record {
              jobs_ok = moved.jobs_ok;
              transfers = moved.transfers;
              counted = moved.counted;
            })
      ]

      finish_job-BankOk :
          (sv dv : String)
          → Has cl (transfer_reads job sv dv) (debit job sv ∷ credit job dv ∷ [])
          → job.amount ≤ atoi sv
          → BankOk (finish_job st cert b i job cl)
      unfolding finish_job commit_step
      finish_job-BankOk sv dv has covered =
          let done : Done = record { reads = cl.seen; writes = cl.txn.write_set } in
          let is_transfer : IsTransfer done = record {
            job = job;
            src_text = sv;
            dst_text = dv;
            drawn = drawn;
            covered = covered;
            did_read = has.1;
            did_write = has.2;
          } in
          let jobs_ok : JobsOk _ (step st cert b.world (commits i)).clients =
            rw (step-commits st cert b.world i cl here)
              (Paired-set JobOk b.jobs b.world.clients i _ _ ok.jobs_ok (drawn, tt)) in
          settle-BankOk (Execution.commit cert b.world.cert b.world.store cl.txn).1.0.committed b
            done (go_on st cert b i job (commits i) ended) is_transfer jobs_ok
            (ap (λ w. w.history) (step-commits st cert b.world i cl here)) refl ok

      advance_job-BankOk :
          (phase : Phase) → At job cl phase → BankOk (advance_job st cert b i job cl phase)
      unfolding advance_job
      advance_job-BankOk begun (has, empty) =
          read_turn-BankOk job.src [] (got_src _) has empty (λ cl' h e. (h, e))
      advance_job-BankOk (got_src sv) (has, empty) =
          read_turn-BankOk job.dst _ (got_both sv _) has empty (λ cl' h e. h)
      advance_job-BankOk (got_both sv dv) has = decide-BankOk sv dv has
      advance_job-BankOk (debited sv dv) (has, covered) =
          write_turn-BankOk (acct job.dst) _ (credited sv dv)
            (write_client-Has cl (transfer_reads job sv dv) _ (acct job.dst) _ has, covered)
      advance_job-BankOk (credited sv dv) (has, covered) = finish_job-BankOk sv dv has covered
      advance_job-BankOk (waiting sv dv) at = ok
      advance_job-BankOk ended at = ok

  start_job-BankOk : (b : Bank C S) (x y z : ℕ) → BankOk b → BankOk (start_job st cert b x y z)
  unfolding start_job step begin_step Execution.begin check_active
  start_job-BankOk b x y z ok = elim (Bool-cases (eqb (y % num_accounts) (x % num_accounts))) [
    | inl same ↦ rw same ok
    | inr differ ↦ rw differ (record {
      jobs_ok =
          Paired-append JobOk b.jobs b.world.clients _ _ ok.jobs_ok
            ((omega arith, omega arith, λ e. ground arith), ((refl, refl, refl), refl));
      transfers = ok.transfers;
      counted = ok.counted;
    })
  ]

  turn-BankOk : (b : Bank C S) (t : Turn) → BankOk b → BankOk (turn st cert b t)
  unfolding turn
  turn-BankOk b (starts x y z) ok = start_job-BankOk b x y z ok
  turn-BankOk b (goes i) ok = elim (Option-cases (get_elem? b.jobs i)) [
    | inl e ↦ rw (e, turn) ok
    | inr (job, e) ↦ elim (Option-cases (get_elem? b.world.clients i)) [
      | inl f ↦ rw (e, turn) (rw (f, turn) ok)
      | inr (cl, f) ↦
          let (drawn, at) = Paired-get JobOk b.jobs b.world.clients i ok.jobs_ok e f in
          rw (e, turn) (rw (f, turn) (advance_job-BankOk b i cl f job drawn ok job.phase at))
    ]
  ]

  -- However the turns interleave, only transfers commit.
  pub run_turns-BankOk :
      (b : Bank C S) (ts : List Turn) → BankOk b → BankOk (run_turns st cert b ts)
  unfolding run_turns
  run_turns-BankOk b [] ok = ok
  run_turns-BankOk b (t ∷ ts) ok = run_turns-BankOk (turn st cert b t) ts (turn-BankOk b t ok)
