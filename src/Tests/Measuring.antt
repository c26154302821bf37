-- ===== src/Tests/Measuring.antt =====
-- The report of a few transactions.
use ccas.Common.{ℕ, ◌*◌, ◌/◌, ◌%◌, ◌≡◌, refl, List, [], ◌∷◌, inc64, u64_mod}
use ccas.Common.Sorting.{insertion_sort}
use ccas.Metrics.{
  Floats, Note, commits, aborts, conflicts, note, note_all, new_collector, report, record_commit,
  record_abort, record_conflict, record_epoch_size, clamp, p95, sum64, quot64,
}
use ccas.Metrics.Summary.{by_duration, count_notes, is_commit, is_abort, is_conflict, report-counts}

-- Fractions, which are exact where the floats are near.
abbrev fractions : Floats (ℕ × ℕ)
fractions = record {
  zero_float = (0, 1);
  ratio = λ a b. (a, b);
  per_second = λ a b. (a * 1000000000, b);
  index95 = λ n. n * 95 / 100;
}

-- Two commits, and an abort that is a conflict.
abbrev three_notes : List Note
three_notes = commits 70 ∷ aborts 30 ∷ conflicts ∷ commits 20 ∷ []

report-counts_example :
    let r = report fractions by_duration (note_all new_collector three_notes) 500 in
    (r.total_committed ≡ count_notes is_commit three_notes % u64_mod)
    × (r.total_aborted ≡ count_notes is_abort three_notes % u64_mod)
    × (r.conflict_count ≡ count_notes is_conflict three_notes % u64_mod)
report-counts_example = report-counts fractions by_duration three_notes 500

report_test : report fractions by_duration (note_all new_collector three_notes) 500 ≡ record {
  total_committed = 2;
  total_aborted = 1;
  abort_rate = (1, 3);
  throughput = (2000000000, 500);
  avg_latency = 40;
  p95_latency = 70;
  avg_epoch_size = (0, 1);
  conflict_count = 1;
  elapsed_time = 500;
}
unfolding report note_all note record_commit record_abort record_conflict record_epoch_size clamp
    p95 sum64 quot64 insertion_sort inc64 u64_mod
report_test = refl
