-- ===== src/Demo/Calls.antt =====
-- Each turn of the demo is at most one call of the engine.
use ccas.Common.{
  ℕ, String, refl, inl, inr, List, [], ◌∷◌, arith, length, leb, if_both, get_elem?, Option-cases,
}
use ccas.Common.Decimal.{atoi}
use ccas.Storage.{Store}
use ccas.Ccaas.{Certifier}
use ccas.Execution
use ccas.World.{Client, begins, commits, run}
use ccas.World.Stepping.{Moves, Runs, Moves-Runs}
use ccas.Demo.{
  Phase, begun, got_src, got_both, debited, credited, waiting, ended, Job, Bank, Turn, starts, goes,
  start_job, decide, finish_job, advance_job, turn, run_turns,
}

module _ {C S : Type 0} (st : Store S) (cert : Certifier C S) where
  decide-Moves :
      (b : Bank C S) (i : ℕ) (job : Job) (sv dv : String)
      → Moves st cert b.world (decide st cert b i job sv dv).world
  unfolding decide
  decide-Moves b i job sv dv =
      if_both (λ (b' : Bank C S). Moves st cert b.world b'.world) (leb job.amount (atoi sv))
        (inr (_, refl)) (inr (_, refl))

  finish_job-Moves :
      (b : Bank C S) (i : ℕ) (job : Job) (cl : Client)
      → Moves st cert b.world (finish_job st cert b i job cl).world
  unfolding finish_job
  finish_job-Moves b i job cl =
      if_both (λ (b' : Bank C S). Moves st cert b.world b'.world)
        ((Execution.commit cert b.world.cert b.world.store cl.txn).1.0.committed)
        (inr (commits i, refl)) (inr (commits i, refl))

  advance_job-Moves :
      (b : Bank C S) (i : ℕ) (job : Job) (cl : Client) (phase : Phase)
      → Moves st cert b.world (advance_job st cert b i job cl phase).world
  unfolding advance_job
  advance_job-Moves b i job cl begun = inr (_, refl)
  advance_job-Moves b i job cl (got_src sv) = inr (_, refl)
  advance_job-Moves b i job cl (got_both sv dv) = decide-Moves b i job sv dv
  advance_job-Moves b i job cl (debited sv dv) = inr (_, refl)
  advance_job-Moves b i job cl (credited sv dv) = finish_job-Moves b i job cl
  advance_job-Moves b i job cl (waiting sv dv) = inl refl
  advance_job-Moves b i job cl ended = inl refl

  turn-Moves : (b : Bank C S) (t : Turn) → Moves st cert b.world (turn st cert b t).world
  unfolding turn start_job
  turn-Moves b (starts x y z) =
      if_both (λ (b' : Bank C S). Moves st cert b.world b'.world) _ (inl refl) (inr (begins, refl))
  turn-Moves b (goes i) = elim (Option-cases (get_elem? b.jobs i)) [
    | inl e ↦ rw (e, turn) (inl refl)
    | inr (job, e) ↦ elim (Option-cases (get_elem? b.world.clients i)) [
      | inl f ↦ rw (e, turn) (rw (f, turn) (inl refl))
      | inr (cl, f) ↦ rw (e, turn) (rw (f, turn) (advance_job-Moves b i job cl job.phase))
    ]
  ]

  -- The turns are a run of calls.
  pub run_turns-run :
      (b : Bank C S) (ts : List Turn)
      → Runs st cert (length ts) b.world (run_turns st cert b ts).world
  unfolding run_turns run
  run_turns-run b [] = ([], omega arith, refl)
  run_turns-run b (t ∷ ts) =
      Moves-Runs st cert (length ts) b.world (turn st cert b t).world _ (turn-Moves b t)
        (run_turns-run (turn st cert b t) ts)
