-- ===== src/World/Totals.antt =====
-- The sum of the numbers that the values of a family of keys print.
use ccas.Common.{
  ℕ, ◌+◌, ◌<◌, String, ◌==◌, ◌≡◌, ◌≢◌, refl, sym, inl, inr, arith, if◌then◌else◌, text_cases,
}
use ccas.Common.Decimal.{atoi}
use ccas.Common.Sums.{sum_to, sum_to-change}
use ccas.World.Serial.{Values}

abbrev pub put_value : Values → String → String → Values
put_value v key x j = if key == j then x else v j

module _ (name : ℕ → String) (name-inj : (i j : ℕ) → name i ≡ name j → i ≡ j) where
  -- The number at a key, and the sum over the first `n` keys.
  abbrev pub number_in : Values → ℕ → ℕ
  number_in v i = atoi (v (name i))

  abbrev pub total_of : ℕ → Values → ℕ
  total_of n v = sum_to (number_in v) n

  put_value-same : (v : Values) (m : ℕ) (x : String) → number_in (put_value v (name m) x) m ≡ atoi x
  put_value-same v m x = elim (text_cases (name m) (name m)) [
    | inl (e, same) ↦ rw same refl
    | inr (ne, differ) ↦ absurd (ne refl)
  ]

  pub put_value-ne :
      (v : Values) (m i : ℕ) (x : String)
      → i ≢ m
      → number_in v i ≡ number_in (put_value v (name m) x) i
  put_value-ne v m i x ne = elim (text_cases (name m) (name i)) [
    | inl (e, same) ↦ absurd (ne (sym (name-inj m i e)))
    | inr (apart, differ) ↦ rw differ refl
  ]

  pub total-put :
      (v : Values) (m n k : ℕ) (x : String)
      → m < k
      → atoi x ≡ n
      → total_of k (put_value v (name m) x) + number_in v m ≡ total_of k v + n
  total-put v m n k x l e =
      let moved =
        sum_to-change (number_in v) (number_in (put_value v (name m) x)) k m l
          (λ i ne. put_value-ne v m i x ne) in
      let new = put_value-same v m x in omega arith
