-- ===== src/Tests/Picking.antt =====
-- The benchmark's choice of keys on a few draws.
use ccas.Common.{
  ℕ, zero, suc, ◌<◌, String, ◌≡◌, refl, true, false, none, some, List, map, [], ◌∷◌, arith,
}
use ccas.Common.Text.{decimal}
use ccas.Benchmark.{
  WorkloadConfig, Draw, key_name, hot_keys, pick_index, pick_more, pick_keys, pick_from_slice, seen,
}
use ccas.Benchmark.Keys.{pick_keys-hangs, pick_keys-ends, drawn}

-- Two keys, of which one is hot.
abbrev pub two_names : WorkloadConfig
two_names = record {
  num_clients = 2;
  num_keys = 2;
  reads_per_txn = 2;
  writes_per_txn = 1;
  total_txns_per_client = 1;
  retry_on_abort = true;
  contention_mode = "hotspot";
  hot_part = 0;
  epoch_duration_ms = 10;
}

abbrev pub three_draws : List Draw
three_draws =
    record { is_hot = true; number = 5 }
    ∷ record { is_hot = true; number = 3 }
    ∷ record { is_hot = false; number = 7 }
    ∷ []

pick_program : Unit {0}
unfolding key_name hot_keys pick_index pick_more pick_keys decimal
pick_program = tt

abbrev both_names : List String
both_names = "key-0" ∷ "key-1" ∷ []

-- The hot key is drawn twice, and then the other one.
pick_keys_test : pick_keys two_names 2 three_draws ≡ some both_names
unfolding pick_program
pick_keys_test = refl

pick_keys-hangs_example : pick_keys two_names 3 three_draws ≡ none
pick_keys-hangs_example =
    pick_keys-hangs two_names 3 (omega arith) (omega arith) three_draws (omega arith)

every_name : (i : ℕ) → i < 2 → seen (map (drawn two_names) three_draws) (key_name i) ≡ true
unfolding pick_program
every_name zero h = refl
every_name (suc zero) h = refl
every_name (suc (suc i)) h = absurd (omega arith)

pick_keys-ends_example : (keys : List String) × (pick_keys two_names 2 three_draws ≡ some keys)
pick_keys-ends_example =
    pick_keys-ends two_names 2 (omega arith) (omega arith) three_draws (omega arith) every_name

abbrev read_keys : List String
read_keys = "key-3" ∷ "key-5" ∷ "key-8" ∷ []

pick_from_slice_test : pick_from_slice (λ ks. ks) read_keys 2 ≡ "key-3" ∷ "key-5" ∷ []
unfolding pick_from_slice
pick_from_slice_test = refl
