-- ===== src/Benchmark/Increments.antt =====
-- A transaction of the benchmark adds one to each key that it writes.
use mathlib.Core.List.{Memᴰ}
use ccas.Common.{
  ℕ, ◌+◌, ◌*◌, String, ◌≡◌, ◌≢◌, sym, ap, subst, ◌∙◌, inl, inr, List, [], ◌∷◌, arith, length, map,
  All, All-map, All-Memᴰ, text_cases, eq_refl,
}
use ccas.Common.Text.{decimal}
use ccas.Common.Decimal.{atoi, atoi-decimal}
use ccas.Types.{WriteEntry}
use ccas.World.{Done}
use ccas.World.Serial.{Values, Serial, write_values}
use ccas.World.Totals.{put_value, total_of, total-put}
use ccas.Benchmark.{key_name}
use ccas.Benchmark.Occurs.{occurs, NoTwice, IsKey, key_name-inj}

-- No key is that of an earlier one.
abbrev pub Apart : List String → Type 0
Apart [] = Unit {0}
Apart (k ∷ ks) = All (λ j. j ≢ k) ks × Apart ks

absent : (k : String) (ks : List String) → occurs k ks ≡ 0 → All (λ j. j ≢ k) ks
absent k [] h = tt
absent k (j ∷ ks) h = elim (text_cases j k) [
  | inl (e, same) ↦ absurd (ground arith)
  | inr (ne, differ) ↦ (ne, absent k ks (ground arith))
]

pub NoTwice-Apart : (ks : List String) → NoTwice ks → Apart ks
NoTwice-Apart [] h = tt
NoTwice-Apart (k ∷ ks) h =
    let self = eq_refl k in
    let front = h k in
    (absent k ks (ground arith), NoTwice-Apart ks (λ j. let both = h j in omega arith))

abbrev pub sum_of_keys : ℕ → Values → ℕ
sum_of_keys n v = total_of key_name key_name-inj n v

-- From the values `v`, the write adds one.
abbrev Raises : ℕ → Values → WriteEntry → Type 0
Raises n v w = IsKey n w.key × (atoi w.value ≡ atoi (v w.key) + 1)

Raises-other :
    (n : ℕ) (v : Values) (k x : String) (ws : List WriteEntry)
    → All (λ j. j ≢ k) (map (λ w. w.key) ws)
    → All (Raises n v) ws
    → All (Raises n (put_value v k x)) ws
Raises-other n v k x [] ne h = tt
Raises-other n v k x (w ∷ ws) ne h = elim (text_cases k w.key) [
  | inl (e, same) ↦ absurd (ne.0 (sym e))
  | inr (differs, differ) ↦ ((h.0.0, rw differ h.0.1), Raises-other n v k x ws ne.1 h.1)
]

sum-Raises :
    (n : ℕ) (v : Values) (ws : List WriteEntry)
    → Apart (map (λ w. w.key) ws)
    → All (Raises n v) ws
    → sum_of_keys n (write_values v ws) ≡ sum_of_keys n v + length ws
unfolding write_values
sum-Raises n v [] apart h = omega arith
sum-Raises n v (w ∷ ws) apart (((i, below, named), more), h) =
    let put =
      total-put key_name key_name-inj v i (atoi (v (key_name i)) + 1) n w.value below
        (more ∙ ap (λ k. atoi (v k) + 1) named) in
    let first : sum_of_keys n (put_value v w.key w.value) ≡ sum_of_keys n v + 1 =
      subst (λ k. sum_of_keys n (put_value v k w.value) ≡ sum_of_keys n v + 1) (sym named)
        (omega arith) in
    let rest =
      sum-Raises n (put_value v w.key w.value) ws apart.1
        (Raises-other n v w.key w.value ws apart.0 h) in
    omega arith

-- The write is one more than what the transaction has read.
abbrev pub IsRaised : ℕ → List (String × String) → WriteEntry → Type 0
IsRaised n seen w =
    (val : String) × Memᴰ (w.key, val) seen × (w.value ≡ decimal (atoi val + 1)) × IsKey n w.key

-- Of `n` keys the transaction raises `count` different ones.
pub record IsIncrement (n count : ℕ) (d : Done) : Type 0 where
  pub raised : All (IsRaised n d.reads) d.writes
  pub apart : Apart (map (λ w. w.key) d.writes)
  pub full : length d.writes ≡ count

IsRaised-Raises :
    (n : ℕ) (v : Values) (seen : List (String × String)) (w : WriteEntry)
    → All (λ r. v r.0 ≡ r.1) seen
    → IsRaised n seen w
    → Raises n v w
IsRaised-Raises n v seen w reads (val, read, e, named) = (
  named,
  ap atoi e
      ∙ (atoi-decimal (atoi val + 1)
          ∙ ap (λ x. atoi x + 1) (sym (All-Memᴰ (λ r. v r.0 ≡ r.1) seen reads read))),
)

-- Increments that run one after the other add up: none is lost.
pub Serial-sum :
    (n count : ℕ) (v : Values) (ds : List Done) (v' : Values)
    → All (IsIncrement n count) ds
    → Serial v ds v'
    → sum_of_keys n v' ≡ sum_of_keys n v + length ds * count
Serial-sum n count v [] v' ok h = let same = ap (sum_of_keys n) h in omega arith
Serial-sum n count v (d ∷ ds) v' (is, ok) (reads, h) =
    let rest = Serial-sum n count (write_values v d.writes) ds v' ok h in
    let now =
      sum-Raises n v d.writes is.apart
        (All-map d.writes (λ w r. IsRaised-Raises n v d.reads w reads r) is.raised) in
    let full = is.full in omega arith
