-- ===== src/Metrics.antt =====
-- pkg/metrics/metrics.go: what the benchmark records of its transactions, and its report.
pub mod Summary
use ccas.Common.{
  ℕ, zero, suc, ◌+◌, ◌-◌, ◌/◌, ◌%◌, ◌^◌, Bool, true, false, Option, none, some, List, [], ◌∷◌, ◌++◌,
  ltb, leb, eqb, if◌then◌else◌, not, ◌&&◌, length, get_elem?, inc64, u64_mod,
}

-- An int64 is a word: a number below 2^64, those from 2^63 on are the negative ones.
abbrev pub is_negative : ℕ → Bool
is_negative n = leb (2 ^ 63) n

-- `a < b` on int64.
abbrev pub less : ℕ → ℕ → Bool
less a b = ltb ((a + 2 ^ 63) % u64_mod) ((b + 2 ^ 63) % u64_mod)

-- `s / n` on int64, for a positive `n`: the quotient is rounded towards zero.
unfoldable pub quot64 : ℕ → ℕ → ℕ
quot64 s n = if is_negative s then (u64_mod - (u64_mod - s) / n) % u64_mod else s / n

-- `sum += x` over a slice.
unfoldable pub sum64 : ℕ → List ℕ → ℕ
sum64 sum [] = sum
sum64 sum (x ∷ xs) = sum64 ((sum + x) % u64_mod) xs

-- The arithmetic of float64 that the report needs, on the numbers that are converted.
pub record Floats (F : Type 0) : Type 0 where
  pub zero_float : F
  pub ratio : ℕ → ℕ → F
  pub per_second : ℕ → ℕ → F
  -- `int(float64(n) * 0.95)`
  pub index95 : ℕ → ℕ

pub record Collector : Type 0 where
  pub total_committed : ℕ
  pub total_aborted : ℕ
  pub latencies : List ℕ
  pub epoch_sizes : List ℕ
  pub conflict_count : ℕ

pub record Report (F : Type 0) : Type 0 where
  pub total_committed : ℕ
  pub total_aborted : ℕ
  pub abort_rate : F
  pub throughput : F
  pub avg_latency : ℕ
  pub p95_latency : ℕ
  pub avg_epoch_size : F
  pub conflict_count : ℕ
  pub elapsed_time : ℕ

abbrev pub new_collector : Collector
new_collector = record {
  total_committed = 0;
  total_aborted = 0;
  latencies = [];
  epoch_sizes = [];
  conflict_count = 0;
}

unfoldable pub record_commit : Collector → ℕ → Collector
record_commit c latency = record c {
  total_committed = inc64 c.total_committed;
  latencies = c.latencies ++ latency ∷ [];
}

unfoldable pub record_abort : Collector → ℕ → Collector
record_abort c latency = record c {
  total_aborted = inc64 c.total_aborted;
  latencies = c.latencies ++ latency ∷ [];
}

unfoldable pub record_epoch_size : Collector → ℕ → Collector
record_epoch_size c size = record c { epoch_sizes = c.epoch_sizes ++ size ∷ [] }

unfoldable pub record_conflict : Collector → Collector
record_conflict c = record c { conflict_count = inc64 c.conflict_count }

-- `p95idx`, which stays inside the slice.
unfoldable pub clamp : ℕ → ℕ → ℕ
clamp i n = if leb n i then n - 1 else i

module _ {F : Type 0} (fl : Floats F) (sort : List ℕ → List ℕ) where
  -- The latency at `p95idx`, 0 without a latency.
  unfoldable pub p95 : List ℕ → ℕ
  p95 ls = elim (get_elem? (sort ls) (clamp (fl.index95 (length ls)) (length ls))) [
    | some l ↦ l
    | none ↦ 0
  ]

  -- `elapsed` is what `time.Since` returns; `sort` is what `sort.Slice` makes of the copy,
  -- which has as many elements as `latencies`.
  unfoldable pub report : Collector → ℕ → Report F
  report c elapsed =
      let total = (c.total_committed + c.total_aborted) % u64_mod in
      let n = length c.latencies in
      let sizes = length c.epoch_sizes in
      record {
        total_committed = c.total_committed;
        total_aborted = c.total_aborted;
        abort_rate = if ltb 0 total then fl.ratio c.total_aborted total else fl.zero_float;
        throughput =
            if less 0 elapsed then fl.per_second c.total_committed elapsed else fl.zero_float;
        avg_latency = if ltb 0 n then quot64 (sum64 0 c.latencies) n else 0;
        p95_latency = if ltb 0 n then p95 c.latencies else 0;
        avg_epoch_size =
            if ltb 0 sizes then fl.ratio (sum64 0 c.epoch_sizes) sizes else fl.zero_float;
        conflict_count = c.conflict_count;
        elapsed_time = elapsed;
      }

-- The calls of the benchmark's clients: each method runs under the mutex, so they come one by one.
pub data Note : Type 0 where
  commits : ℕ → Note
  aborts : ℕ → Note
  ends_epoch : ℕ → Note
  conflicts : Note

unfoldable pub note : Collector → Note → Collector
note c (commits latency) = record_commit c latency
note c (aborts latency) = record_abort c latency
note c (ends_epoch size) = record_epoch_size c size
note c conflicts = record_conflict c

unfoldable pub note_all : Collector → List Note → Collector
note_all c [] = c
note_all c (e ∷ es) = note_all (note c e) es
