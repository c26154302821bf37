-- ===== src/Benchmark/Clients/Starting.antt =====
-- The keys with which a round of the benchmark starts.
use mathlib.Core.List.{Memᴰ, Perm}
use ccas.Common.{
  ℕ, ◌≤◌, ◌<◌, String, length, ◌≡◌, sym, ◌∙◌, inr, none, some, List, [], subst, All-Memᴰ,
  All-of_Memᴰ, arith, leb, if◌then◌else◌,
}
use ccas.Dict
use ccas.Execution
use ccas.World.{Client}
use ccas.Benchmark.{WorkloadConfig, Draw, pick_keys, pick_from_slice}
use ccas.Benchmark.Occurs.{IsKey, occurs-Memᴰ, Memᴰ-occurs}
use ccas.Benchmark.Keys.{pick_keys-picks, pick_from_slice-picks}
use ccas.Benchmark.Clients.Jobs.{Runs, Known, Unwritten-empty}

module _ (config : WorkloadConfig) (shuffle : ℕ → List String → List String) (count : ℕ) where
  -- There is a key, no more hot keys than keys, `rng.Shuffle` permutes, and `count` keys are written.
  pub record FitsConfig : Type 0 where
    pub some_keys : 0 < config.num_keys
    pub hot_inside : config.hot_part ≤ config.num_keys
    pub permutes : (seed : ℕ) (ks : List String) → Perm (shuffle seed ks) ks
    pub counted : count ≡ (
        if leb config.writes_per_txn config.reads_per_txn
        then config.writes_per_txn
        else config.reads_per_txn)

  -- A round that begins.
  pub first-Runs :
      (draws : List Draw) (keys : List String) (seed : ℕ) (cl : Client)
      → FitsConfig
      → pick_keys config config.reads_per_txn draws ≡ some keys
      → Execution.check_active cl.txn ≡ none
      → cl.txn.write_set ≡ []
      → cl.txn.write_buffer ≡ []
      → Runs config.num_keys count [] keys
          (pick_from_slice (shuffle seed) keys config.writes_per_txn)
          cl
  unfolding Dict.get
  first-Runs draws keys seed cl fits e active unwritten empty =
      let (length_keys, once, named) =
        pick_keys-picks config config.reads_per_txn fits.some_keys fits.hot_inside draws keys e in
      let picked = pick_from_slice (shuffle seed) keys config.writes_per_txn in
      let (length_picked, among) =
        pick_from_slice-picks (shuffle seed) keys config.writes_per_txn (fits.permutes seed) in
      let inside : (k : String) → Memᴰ k picked → Memᴰ k keys = λ k m.
        occurs-Memᴰ k keys
          (let here = Memᴰ-occurs k picked m in let few = among k in omega arith) in
      record {
        active = active;
        noted = λ k v h. absurd (cc);
        raised = rw unwritten tt;
        once = rw unwritten (λ k. let one = once k in let few = among k in omega arith);
        named =
            All-of_Memᴰ (IsKey config.num_keys) picked
              (λ k m. All-Memᴰ (IsKey config.num_keys) keys named (inside k m));
        full =
            let wanted : length picked ≡ count =
              subst
                (λ n.
                  length picked
                  ≡ (if leb config.writes_per_txn n then config.writes_per_txn else n))
                length_keys length_picked
              ∙ sym fits.counted in
            rw unwritten (omega arith);
        known = All-of_Memᴰ (Known [] keys) picked (λ k m. inr (inside k m));
        unwritten = Unwritten-empty keys cl empty;
      }
