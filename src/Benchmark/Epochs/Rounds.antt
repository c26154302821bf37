-- ===== src/Benchmark/Epochs/Rounds.antt =====
-- The rounds of the benchmark as jobs under epoch certification.
use ccas.Common.{ℕ, ◌%◌, ◌≡◌, subst, true, if◌then◌else◌, u64_mod}
use ccas.World.{Client}
use ccas.World.Settling.{done_of}
use ccas.Service.Jobs.{Rules, Joined}
use ccas.Benchmark.{WorkloadConfig}
use ccas.Benchmark.Increments.{IsIncrement}
use ccas.Benchmark.Clients.Jobs.{JobOk}
use ccas.Benchmark.Epochs.{Round, EpochBench}

-- A round that waits has an increment to commit.
abbrev pub RoundOk : ℕ → ℕ → Round → Client → Type 0
RoundOk n count r c = if r.waits then IsIncrement n count (done_of c) else JobOk n count r.job c

RoundOk-waits :
    (n count : ℕ) (r : Round) (c : Client)
    → r.waits ≡ true
    → RoundOk n count r c
    → IsIncrement n count (done_of c)
RoundOk-waits n count r c waits h = rw waits at h

pub RoundOk-answers :
    (n count : ℕ) (r : Round) (c c' : Client)
    → r.waits ≡ true
    → c'.seen ≡ c.seen
    → c'.txn.write_set ≡ c.txn.write_set
    → RoundOk n count r c
    → IsIncrement n count (done_of c) × RoundOk n count r c'
RoundOk-answers n count r c c' waits seen ws h =
    let is = RoundOk-waits n count r c waits h in
    let same : done_of c ≡ done_of c' = cc (seen, ws) in
    (is, rw waits (subst (IsIncrement n count) same is))

abbrev pub round_rules : ℕ → ℕ → Rules Round
round_rules n count = record {
  awaits = λ r. r.waits;
  Ok = RoundOk n count;
  Good = IsIncrement n count;
  answers = RoundOk-answers n count;
}

-- The rounds fit their transactions, the commits are counted modulo 2^64, and so are the conflicts.
pub record BenchOk {S : Type 0} (config : WorkloadConfig) (count : ℕ) (b : EpochBench S)
    : Type 0 where
  pub told : ℕ
  pub joined : Joined (round_rules config.num_keys count) told b.rounds b.service
  pub committed : b.collector.total_committed ≡ told % u64_mod
  pub conflicts : b.collector.conflict_count ≡ b.collector.total_aborted
