-- ===== src/Common/Sums.antt =====
-- Sums of a function over the numbers below a bound.
use Prim.Native.Nat.{ℕ, zero, suc, ◌+◌, ◌≤◌, ◌<◌}
use mathlib.Core.Path.{◌≡◌, refl, subst}
use mathlib.Core.Logic.{◌≢◌, inl, inr}
use native.Mathlib.Omega.{arith}
use ccas.Common.Tests.{eqb, Bool-cases}

unfoldable pub sum_to : (ℕ → ℕ) → ℕ → ℕ
sum_to f zero = 0
sum_to f (suc n) = sum_to f n + f n

pub sum_to-same : (f g : ℕ → ℕ) (n : ℕ) → ((i : ℕ) → i < n → f i ≡ g i) → sum_to f n ≡ sum_to g n
unfolding sum_to
sum_to-same f g zero h = refl
sum_to-same f g (suc n) h =
    let rest = sum_to-same f g n (λ i l. h i (omega arith)) in
    let last = h n (omega arith) in omega arith

-- The function changes at one number.
pub sum_to-change :
    (f g : ℕ → ℕ) (n k : ℕ)
    → k < n
    → ((i : ℕ) → i ≢ k → f i ≡ g i)
    → sum_to f n + g k ≡ sum_to g n + f k
unfolding sum_to
sum_to-change f g zero k l h = absurd (omega arith)
sum_to-change f g (suc n) k l h = elim (Bool-cases (eqb n k)) [
  | inl last ↦
      let at : n ≡ k = ground arith in
      let rest = sum_to-same f g n (λ i m. h i (λ e. omega arith)) in
      subst (λ j. sum_to f n + f n + g j ≡ sum_to g n + g n + f j) at (omega arith)
  | inr before ↦
      let apart : n ≢ k = λ e. ground arith in
      let rest = sum_to-change f g n k (omega arith) h in let same = h n apart in omega arith
]

pub sum_to_zero : (n : ℕ) → sum_to (λ i. 0) n ≡ 0
unfolding sum_to
sum_to_zero zero = refl
sum_to_zero (suc n) = let rest = sum_to_zero n in omega arith

-- Summands of at most 1.
pub sum_to-le : (f : ℕ → ℕ) (n : ℕ) → ((i : ℕ) → f i ≤ 1) → sum_to f n ≤ n
unfolding sum_to
sum_to-le f zero h = omega arith
sum_to-le f (suc n) h = let rest = sum_to-le f n h in let last = h n in omega arith
