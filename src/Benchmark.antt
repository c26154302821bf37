-- ===== src/Benchmark.antt =====
-- pkg/benchmark/driver.go: how a client of the benchmark chooses its keys (here) and runs its
-- transactions (Clients). The random numbers come as a list of draws.
pub mod Occurs
pub mod Keys
pub mod Increments
pub mod Clients
pub mod Epochs
pub mod Running
use ccas.Common.{
  ℕ, ◌+◌, ◌%◌, String, ◌==◌, Bool, true, false, Option, none, some, List, [], ◌∷◌, ◌++◌, ltb, leb,
  if◌then◌else◌, length, take,
}
use ccas.Common.Text
use ccas.Common.Text.{decimal}

-- `type WorkloadConfig struct`, less `HotKeyAccessProb`, which shapes the draws. `hot_part` is
-- `int(float64(NumKeys) * HotKeyFraction)`. The numbers are not negative.
pub record WorkloadConfig : Type 0 where
  pub num_clients : ℕ
  pub num_keys : ℕ
  pub reads_per_txn : ℕ
  pub writes_per_txn : ℕ
  pub total_txns_per_client : ℕ
  pub retry_on_abort : Bool
  pub contention_mode : String
  pub hot_part : ℕ
  pub epoch_duration_ms : ℕ

-- The ready-made workloads; `tenth n` is `int(float64(n) * 0.1)`.
module _ (tenth : ℕ → ℕ) where
  unfoldable pub default_config : WorkloadConfig
  default_config = record {
    num_clients = 4;
    num_keys = 1000;
    reads_per_txn = 3;
    writes_per_txn = 2;
    total_txns_per_client = 1000;
    retry_on_abort = true;
    contention_mode = "uniform";
    hot_part = tenth 1000;
    epoch_duration_ms = 0;
  }

  unfoldable pub low_contention_read_heavy : WorkloadConfig
  low_contention_read_heavy = record default_config {
    num_keys = 1000;
    reads_per_txn = 8;
    writes_per_txn = 2;
    contention_mode = "uniform";
    hot_part = tenth 1000;
  }

  unfoldable pub high_contention_write_heavy : WorkloadConfig
  high_contention_write_heavy = record default_config {
    num_keys = 100;
    reads_per_txn = 5;
    writes_per_txn = 5;
    contention_mode = "hotspot";
    hot_part = tenth 100;
  }

-- What the generator gives in one round: whether `rng.Float64() < HotKeyAccessProb`, and the number
-- from which `rng.Intn(n)` makes one below `n`.
pub record Draw : Type 0 where
  pub is_hot : Bool
  pub number : ℕ

-- `fmt.Sprintf("key-%d", idx)`
unfoldable pub key_name : ℕ → String
key_name idx = Text.◌++◌ "key-" (decimal idx)

unfoldable pub hot_keys : WorkloadConfig → ℕ
hot_keys config = if ltb config.hot_part 1 then 1 else config.hot_part

unfoldable pub pick_index : WorkloadConfig → Draw → ℕ
pick_index config d =
    if config.contention_mode == "hotspot"
    then (if d.is_hot then d.number % hot_keys config else d.number % config.num_keys)
    else d.number % config.num_keys

-- `seen[key]`: the map holds the keys that have been picked.
abbrev pub seen : List String → String → Bool
seen [] key = false
seen (k ∷ ks) key = if k == key then true else seen ks key

module _ (config : WorkloadConfig) (count : ℕ) where
  -- The loop of `pickKeys`, over the draws that the generator will give; `none` if it has not ended
  -- when they run out.
  unfoldable pub pick_more : List String → List Draw → Option (List String)
  pick_more keys [] = if ltb (length keys) count then none else some keys
  pick_more keys (d ∷ draws) =
      let key = key_name (pick_index config d) in
      let picked = if seen keys key then keys else keys ++ key ∷ [] in
      let rest = pick_more picked draws in if ltb (length keys) count then rest else some keys

  unfoldable pub pick_keys : List Draw → Option (List String)
  pick_keys draws = pick_more [] draws

-- `shuffle` is what `rng.Shuffle` makes of the copy.
unfoldable pub pick_from_slice : (List String → List String) → List String → ℕ → List String
pick_from_slice shuffle keys count =
    if leb (length keys) count then keys else take count (shuffle keys)
