-- ===== src/Dict.antt =====
-- A Go map with string keys, as an association list in which `set` overwrites in place.
use ccas.Common.{
  String, ◌≡◌, refl, Option, none, some, List, [], ◌∷◌, arith, ap, ◌==◌, text_cases, inl, inr,
  is_some, false, eq_iff, eq_refl, if◌then◌else◌,
}

abbrev pub Dict {ℓ} : Type ℓ → Type ℓ
Dict V = List (String × V)

module _ {ℓ} {V : Type ℓ} where
  -- `v, ok := m[k]`
  unfoldable pub get : Dict V → String → Option V
  get [] k = none
  get ((j, v) ∷ m) k = if j == k then some v else get m k

  -- `m[k] = v`
  unfoldable pub set : Dict V → String → V → Dict V
  set [] k v = (k, v) ∷ []
  set ((j, w) ∷ m) k v = if j == k then (j, v) ∷ m else (j, w) ∷ set m k v

  pub get-set :
      (m : Dict V) (k j : String) (v : V) → get (set m k v) j ≡ (if k == j then some v else get m j)
  unfolding get set
  get-set [] k j v = refl
  get-set ((i, w) ∷ m) k j v = ground (arith, eq_iff k j, eq_iff i k, eq_iff i j, get-set m k j v)

  -- Every key stands once, as in any Go map.
  abbrev pub Distinct : Dict V → Type 0
  Distinct [] = Unit {0}
  Distinct ((k, v) ∷ m) = (is_some (get m k) ≡ false) × Distinct m

  pub set-Distinct : (m : Dict V) (k : String) (v : V) → Distinct m → Distinct (set m k v)
  unfolding get set
  set-Distinct [] k v d = (refl, tt)
  set-Distinct ((j, w) ∷ m) k v d =
      ground (arith, eq_iff j k, eq_iff k j, get-set m k j v, set-Distinct m k v d.1)

  pub get_head : (k : String) (v : V) (m : Dict V) → get ((k, v) ∷ m) k ≡ some v
  unfolding get
  get_head k v m = rw (eq_refl k)

  -- A distinct list finds each of its pairs.
  pub get-tail :
      (j k : String) (w v : V) (m : Dict V)
      → Distinct ((j, w) ∷ m)
      → get m k ≡ some v
      → get ((j, w) ∷ m) k ≡ some v
  unfolding get
  get-tail j k w v m d h = elim (text_cases j k) [
    | inl (e, _) ↦ absurd (cc (d.0, ap (λ x. is_some (get m x)) e, h))
    | inr (_, t) ↦ rw t h
  ]

-- `for k, v := range m { result[k] = f v }` on an empty `result`. Go leaves the order of iteration
-- open; here it is from the end of the list, so that the entry that `get` finds is written last.
module _ {ℓ κ} {V : Type ℓ} {W : Type κ} (f : V → W) where
  unfoldable pub copy_range : Dict V → Dict W → Dict W
  copy_range [] result = result
  copy_range ((k, v) ∷ m) result = set (copy_range m result) k (f v)

  pub get-copy_range :
      (m : Dict V) (result : Dict W) (k : String)
      → get (copy_range m result) k ≡ elim (get m k) [ some v ↦ some (f v) | none ↦ get result k ]
  unfolding get copy_range
  get-copy_range [] result k = refl
  get-copy_range ((j, v) ∷ m) result k =
      ground (arith, get-set (copy_range m result) j k (f v), get-copy_range m result k)

  pub copy_range-Distinct :
      (m : Dict V) (result : Dict W) → Distinct result → Distinct (copy_range m result)
  unfolding copy_range
  copy_range-Distinct [] result d = d
  copy_range-Distinct ((k, v) ∷ m) result d =
      set-Distinct (copy_range m result) k (f v) (copy_range-Distinct m result d)
