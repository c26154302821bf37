-- ===== src/Benchmark/Clients/Steps.antt =====
-- Each turn of the benchmark keeps the rounds in step with their transactions.
use ccas.Common.Pairs.{Paired, Paired-append, Paired-set, Paired-get}
use ccas.Common.{
  ℕ, ◌+◌, ◌%◌, String, length, length-snoc, ◌≡◌, refl, ap, inl, inr, Bool, true, false, some, List,
  [], if_cases, ◌||◌, not, ◌∷◌, ◌++◌, arith, All, All-append, ltb, if◌then◌else◌, get_elem?,
  set_elem, Option-cases, inc64, u64_mod,
}
use ccas.Common.Text.{decimal}
use ccas.Common.Decimal.{atoi}
use ccas.Dict
use ccas.Storage.{Store}
use ccas.Ccaas.{Certifier}
use ccas.Execution
use ccas.World.{
  Client, Done, Event, reads, writes, commits, step, begin_step, read_step, commit_step,
  read_client, write_client,
}
use ccas.World.Settling.{done_of}
use ccas.World.Stepping.{step-reads, step-writes, step-commits}
use ccas.Metrics.{record_commit, record_abort, record_conflict}
use ccas.Benchmark.{WorkloadConfig, Draw, pick_keys}
use ccas.Benchmark.Increments.{IsIncrement}
use ccas.Benchmark.Clients.{
  Job, Bench, Turn, starts, goes, is_running, value_read, start_round, go_on, finish_round, advance,
  turn, run_rounds,
}
use ccas.Benchmark.Clients.Starting.{FitsConfig, first-Runs}
use ccas.Benchmark.Clients.Jobs.{Runs, JobOk, read_client-Runs, write_client-Runs, Runs-IsIncrement}

module _ {C S : Type 0} (st : Store S) (cert : Certifier C S) (config : WorkloadConfig)
    (shuffle : ℕ → List String → List String) (count : ℕ) where
  -- The rounds are in step with their transactions, what has committed are increments, and the
  -- collector has counted them and the conflicts.
  pub record BenchOk (b : Bench C S) : Type 0 where
    pub jobs_ok : Paired (JobOk config.num_keys count) b.jobs b.world.clients
    pub increments : All (IsIncrement config.num_keys count) b.world.history
    pub committed : b.collector.total_committed ≡ length b.world.history % u64_mod
    pub conflicts : b.collector.conflict_count ≡ b.collector.total_aborted

  -- A round settles: it is in the history, and counted, if it has committed.
  settle-BenchOk :
      (c : Bool) (b : Bench C S) (d : Done) (b' : Bench C S) (latency : ℕ) (ns ms : List ℕ)
      → IsIncrement config.num_keys count d
      → Paired (JobOk config.num_keys count) b'.jobs b'.world.clients
      → b'.world.history ≡ (if c then b.world.history ++ d ∷ [] else b.world.history)
      → BenchOk b
      → BenchOk (
          if c
          then record b' { collector = record_commit b.collector latency; completed = ns }
          else record b' {
            collector = record_conflict (record_abort b.collector latency);
            completed = ms;
          })
  unfolding record_commit record_abort record_conflict inc64 u64_mod
  settle-BenchOk true b d b' latency ns ms is good e ok = record {
    jobs_ok = good;
    increments = rw e (
        All-append (IsIncrement config.num_keys count) b.world.history (d ∷ []) ok.increments
          (is, tt));
    committed =
        let now = length-snoc b.world.history d in let before = ok.committed in rw e (omega arith);
    conflicts = ok.conflicts;
  }
  settle-BenchOk false b d b' latency ns ms is good e ok = record {
    jobs_ok = good;
    increments = rw e ok.increments;
    committed = rw e ok.committed;
    conflicts = ap (λ n. (n + 1) % u64_mod) ok.conflicts;
  }

  module _ (b : Bench C S) (i : ℕ) (cl : Client) (here : get_elem? b.world.clients i ≡ some cl)
      (job : Job) (going : job.over ≡ false) (ok : BenchOk b) where
    go_on-BenchOk :
        (e : Event) (job' : Job) (cl' : Client)
        → (step st cert b.world e).clients ≡ set_elem b.world.clients i cl'
        → (step st cert b.world e).history ≡ b.world.history
        → JobOk config.num_keys count job' cl'
        → BenchOk (go_on st cert config shuffle b i e job')
    go_on-BenchOk e job' cl' cs hs good = record {
      jobs_ok = rw cs (
          Paired-set (JobOk config.num_keys count) b.jobs b.world.clients i job' cl' ok.jobs_ok
            good);
      increments = rw hs ok.increments;
      committed = rw hs ok.committed;
      conflicts = ok.conflicts;
    }

    finish_round-BenchOk :
        (latency : ℕ)
        → Runs config.num_keys count job.values [] [] cl
        → BenchOk (finish_round st cert config shuffle b i job cl latency)
    unfolding finish_round commit_step
    finish_round-BenchOk latency r =
        let moved = step-commits st cert b.world i cl here in
        let jobs_ok : Paired (JobOk config.num_keys count) _
            (step st cert b.world (commits i)).clients =
          rw moved (
            Paired-set (JobOk config.num_keys count) b.jobs b.world.clients i
              (record job { over = true }) _ ok.jobs_ok tt) in
        settle-BenchOk (Execution.commit cert b.world.cert b.world.store cl.txn).1.0.committed b
          (done_of cl) (go_on st cert config shuffle b i (commits i) (record job { over = true }))
          latency _ _ (Runs-IsIncrement config.num_keys count cl job.values r) jobs_ok
          (ap (λ w. w.history) moved) ok

    advance-BenchOk :
        (latency : ℕ) (ks ws : List String)
        → job.read_todo ≡ ks
        → job.write_todo ≡ ws
        → Runs config.num_keys count job.values ks ws cl
        → BenchOk (advance st cert config shuffle b i job cl latency ks ws)
    unfolding advance read_step
    advance-BenchOk latency (key ∷ ks) ws read_all todo r =
        let val = (Execution.read st b.world.store cl.txn key).1.0 in
        let moved = step-reads st cert b.world i cl here key in
        go_on-BenchOk (reads i key)
          (record job { read_todo = ks; values = Dict.set job.values key val })
          (read_client st b.world.store key cl).1 (ap (λ w. w.clients) moved)
          (ap (λ w. w.history) moved)
          (rw (going, todo)
            (read_client-Runs st config.num_keys count b.world.store cl job.values key ks ws r))
    advance-BenchOk latency [] (key ∷ ks) read_all todo r =
        let value = decimal (atoi (value_read job.values key) + 1) in
        let moved = step-writes st cert b.world i cl here key value in
        go_on-BenchOk (writes i key value) (record job { write_todo = ks })
          (write_client key value cl) (ap (λ w. w.clients) moved) (ap (λ w. w.history) moved)
          (rw (going, read_all) (write_client-Runs config.num_keys count cl job.values key ks r))
    advance-BenchOk latency [] [] read_all todo r = finish_round-BenchOk latency r

  start_round-BenchOk :
      (b : Bench C S) (c : ℕ) (draws : List Draw) (seed : ℕ)
      → FitsConfig config shuffle count
      → BenchOk b
      → BenchOk (start_round st cert config shuffle b c draws seed)
  unfolding start_round step begin_step Execution.begin Execution.check_active
  start_round-BenchOk b c draws seed fits ok = elim (Option-cases (get_elem? b.completed c)) [
    | inl e ↦ rw (e, start_round) ok
    | inr (completed, e) ↦
        rw (e, start_round)
          (if_cases BenchOk
            (is_running b.jobs c || not (ltb completed config.total_txns_per_client)) (λ _. ok)
            (λ _. elim (Option-cases (pick_keys config config.reads_per_txn draws)) [
              | inl f ↦ rw (f, start_round) ok
              | inr (keys, f) ↦
                  rw (f, start_round)
                    (record {
                      jobs_ok =
                          Paired-append (JobOk config.num_keys count) b.jobs b.world.clients _ _
                            ok.jobs_ok
                            (first-Runs config shuffle count draws keys seed _ fits f refl refl
                              refl);
                      increments = ok.increments;
                      committed = ok.committed;
                      conflicts = ok.conflicts;
                    })
            ]))
  ]

  turn-BenchOk :
      (b : Bench C S) (t : Turn)
      → FitsConfig config shuffle count
      → BenchOk b
      → BenchOk (turn st cert config shuffle b t)
  unfolding turn
  turn-BenchOk b (starts c draws seed) fits ok = start_round-BenchOk b c draws seed fits ok
  turn-BenchOk b (goes i latency) fits ok = elim (Option-cases (get_elem? b.jobs i)) [
    | inl e ↦ rw (e, turn) ok
    | inr (job, e) ↦ elim (Option-cases (get_elem? b.world.clients i)) [
      | inl f ↦ rw (e, turn) (rw (f, turn) ok)
      | inr (cl, f) ↦
          let at =
            Paired-get (JobOk config.num_keys count) b.jobs b.world.clients i ok.jobs_ok e f in
          rw (e, turn)
            (rw (f, turn)
              (if_cases BenchOk job.over (λ _. ok)
                (λ going.
                  advance-BenchOk b i cl f job going ok latency job.read_todo job.write_todo refl
                    refl (rw going at at))))
    ]
  ]

  pub run_rounds-BenchOk :
      (b : Bench C S) (ts : List Turn)
      → FitsConfig config shuffle count
      → BenchOk b
      → BenchOk (run_rounds st cert config shuffle b ts)
  unfolding run_rounds
  run_rounds-BenchOk b [] fits ok = ok
  run_rounds-BenchOk b (t ∷ ts) fits ok =
      run_rounds-BenchOk (turn st cert config shuffle b t) ts fits (turn-BenchOk b t fits ok)
