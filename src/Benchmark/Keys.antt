-- ===== src/Benchmark/Keys.antt =====
-- The keys of a transaction: how many there are, and when the choice ends.
use mathlib.Core.List.{Perm}
use ccas.Common.{
  ℕ, ◌≤◌, ◌<◌, String, ◌≡◌, ◌⊎◌, refl, subst, inl, inr, true, false, Option, none, some, List, map,
  [], ◌∷◌, ◌++◌, arith, All, All-append, ltb, leb, if◌then◌else◌, length, length-snoc, Bool-cases,
  text_cases,
}
use ccas.Common.Sorting.{Perm-length}
use ccas.Benchmark.{
  WorkloadConfig, Draw, key_name, hot_keys, pick_index, seen, pick_more, pick_keys, pick_from_slice,
}
use ccas.Benchmark.Occurs.{
  occurs, NoTwice, IsKey, sum_to-occurs, length-NoTwice, sum_to-ge, seen-occurs, unseen-occurs,
  occurs-snoc, seen-snoc, seen-kept, occurs-Perm, occurs-take, length-take,
}

-- The key that a draw makes.
abbrev pub drawn : WorkloadConfig → Draw → String
drawn config d = key_name (pick_index config d)

module _ (config : WorkloadConfig) (count : ℕ) (some_keys : 0 < config.num_keys)
    (hot_inside : config.hot_part ≤ config.num_keys) where
  pick_index-lt : (d : Draw) → pick_index config d < config.num_keys
  unfolding pick_index hot_keys
  pick_index-lt d = ground arith

  -- What has been picked: different keys, and not too many.
  record Good (keys : List String) : Type 0 where
    once : NoTwice keys
    named : All (IsKey config.num_keys) keys
    few : length keys ≤ count

  Good-snoc :
      (keys : List String) (d : Draw)
      → Good keys
      → length keys < count
      → seen keys (drawn config d) ≡ false
      → Good (keys ++ drawn config d ∷ [])
  Good-snoc keys d good room fresh = record {
    once = λ k. elim (text_cases (drawn config d) k) [
      | inl (e, same) ↦
          let none_yet = unseen-occurs keys (drawn config d) fresh in
          let now = occurs-snoc keys (drawn config d) k in
          let none_of_k : occurs k keys ≡ 0 = subst (λ x. occurs x keys ≡ 0) e none_yet in
          ground arith
      | inr (apart, differ) ↦
          let now = occurs-snoc keys (drawn config d) k in let before = good.once k in ground arith
    ];
    named =
        All-append (IsKey config.num_keys) keys (drawn config d ∷ []) good.named
          ((pick_index config d, pick_index-lt d, refl), tt);
    few = let longer = length-snoc keys (drawn config d) in omega arith;
  }

  -- Either the loop has ended, or it has seen all that was drawn.
  record Outcome (keys : List String) (draws : List Draw) (r : Option (List String)) : Type 0 where
    final : List String
    good : Good final
    kept : (k : String) → seen keys k ≡ true → seen final k ≡ true
    ended :
        ((r ≡ some final) × (length final ≡ count))
        ⊎ ((r ≡ none)
            × (length final < count)
            × All (λ d. seen final (drawn config d) ≡ true) draws)

  pick_more-Outcome :
      (keys : List String) (draws : List Draw)
      → Good keys
      → Outcome keys draws (pick_more config count keys draws)
  unfolding pick_more
  pick_more-Outcome keys [] good = elim (Bool-cases (ltb (length keys) count)) [
    | inl short ↦ rw short (record {
      final = keys;
      good = good;
      kept = λ k h. h;
      ended = inr (refl, ground arith, tt);
    })
    | inr full ↦
        let few = good.few in
        rw full
          (record { final = keys; good = good; kept = λ k h. h; ended = inl (refl, ground arith) })
  ]
  pick_more-Outcome keys (d ∷ draws) good = elim (Bool-cases (ltb (length keys) count)) [
    | inr full ↦
        let few = good.few in
        rw full
          (record { final = keys; good = good; kept = λ k h. h; ended = inl (refl, ground arith) })
    | inl short ↦ rw short (elim (Bool-cases (seen keys (drawn config d))) [
      | inl again ↦
          let r = pick_more-Outcome keys draws good in
          rw again (record {
            final = r.final;
            good = r.good;
            kept = r.kept;
            ended = elim r.ended [
              | inl e ↦ inl e
              | inr (e, less, all) ↦ inr (e, less, (r.kept _ again, all))
            ];
          })
      | inr fresh ↦
          let room : length keys < count = ground arith in
          let r =
            pick_more-Outcome (keys ++ drawn config d ∷ []) draws
              (Good-snoc keys d good room fresh) in
          rw fresh (record {
            final = r.final;
            good = r.good;
            kept = λ k h. r.kept k (seen-kept keys (drawn config d) k h);
            ended = elim r.ended [
              | inl e ↦ inl e
              | inr (e, less, all) ↦
                  inr (e, less, (r.kept _ (seen-snoc keys (drawn config d)), all))
            ];
          })
    ])
  ]

  -- What has been drawn has been seen.
  seen-All :
      (keys : List String) (draws : List Draw) (k : String)
      → All (λ d. seen keys (drawn config d) ≡ true) draws
      → seen (map (drawn config) draws) k ≡ true
      → seen keys k ≡ true
  seen-All keys [] k all h = absurd (cc)
  seen-All keys (d ∷ draws) k (first, all) h = elim (text_cases (drawn config d) k) [
    | inl (e, same) ↦ subst (λ x. seen keys x ≡ true) e first
    | inr (apart, differ) ↦ seen-All keys draws k all (ground arith)
  ]

  pick_keys-Outcome : (draws : List Draw) → Outcome [] draws (pick_keys config count draws)
  unfolding pick_keys
  pick_keys-Outcome draws =
      pick_more-Outcome [] draws (record { once = λ k. omega arith; named = tt; few = omega arith })

  -- The keys that are picked, when the draws suffice: as many as were asked for, all different, all
  -- names of numbers below `NumKeys`. There has to be a key, and no more hot keys than keys.
  pub pick_keys-picks :
      (draws : List Draw) (keys : List String)
      → pick_keys config count draws ≡ some keys
      → (length keys ≡ count) × NoTwice keys × All (IsKey config.num_keys) keys
  pick_keys-picks draws keys h =
      let r = pick_keys-Outcome draws in
      elim r.ended [
        | inl (e, full) ↦
            let same : r.final ≡ keys = cc (e, h) in
            let good = subst Good same r.good in
            (subst (λ l. length l ≡ count) same full, good.once, good.named)
        | inr (e, _, _) ↦ absurd (cc (e, h))
      ]

  -- A transaction that is to read more keys than there are never gets them: whatever is drawn, the
  -- loop goes on. There is a key, and there are no more hot keys than keys.
  pub pick_keys-hangs :
      (draws : List Draw) → config.num_keys < count → pick_keys config count draws ≡ none
  pick_keys-hangs draws too_many =
      let r = pick_keys-Outcome draws in
      elim r.ended [
        | inl (e, full) ↦
            let bound = length-NoTwice config.num_keys r.final r.good.named r.good.once in
            absurd (omega (arith, full, bound))
        | inr (e, _, _) ↦ e
      ]

  -- Once every key has been drawn, the loop has ended, if no more keys are asked for than there are.
  -- There is a key, and there are no more hot keys than keys.
  pub pick_keys-ends :
      (draws : List Draw)
      → count ≤ config.num_keys
      → ((i : ℕ) → i < config.num_keys → seen (map (drawn config) draws) (key_name i) ≡ true)
      → (keys : List String) × (pick_keys config count draws ≡ some keys)
  pick_keys-ends draws enough drawn_all =
      let r = pick_keys-Outcome draws in
      elim r.ended [
        | inl (e, full) ↦ (r.final, e)
        | inr (e, less, all) ↦
            let total = sum_to-occurs config.num_keys r.final r.good.named in
            let every =
              sum_to-ge (λ i. occurs (key_name i) r.final) config.num_keys
                (λ i below.
                  seen-occurs r.final (key_name i)
                    (seen-All r.final draws (key_name i) all (drawn_all i below))) in
            absurd (omega (arith, total, every, less))
      ]

-- The keys that a transaction writes are among those that it has read, none more often than there,
-- and as many as were asked for, if there are so many. The shuffle only has to permute.
pub pick_from_slice-picks :
    (shuffle : List String → List String) (keys : List String) (count : ℕ)
    → ((ks : List String) → Perm (shuffle ks) ks)
    → let picked = pick_from_slice shuffle keys count in
      (length picked ≡ (if leb count (length keys) then count else length keys))
      × ((k : String) → occurs k picked ≤ occurs k keys)
unfolding pick_from_slice
pick_from_slice-picks shuffle keys count permutes = elim (Bool-cases (leb (length keys) count)) [
  | inl all ↦ rw all (ground arith, λ k. omega arith)
  | inr some_of_them ↦
      let same = Perm-length (permutes keys) in
      let inside : count ≤ length keys = ground arith in
      let full = length-take count (shuffle keys) (omega arith) in
      rw some_of_them (
        ground arith,
        λ k.
            let part = occurs-take count k (shuffle keys) in
            let equal = occurs-Perm k (permutes keys) in omega arith,
      )
]
