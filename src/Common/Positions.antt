-- ===== src/Common/Positions.antt =====
-- Whether the element at a position passes a test.
use Prim.Native.Nat.{ℕ, zero, suc}
use mathlib.Core.Path.{◌≡◌, refl, ap, ◌∙◌}
use mathlib.Core.Logic.{◌≢◌}
use mathlib.Core.Bool.{Bool, true, false}
use mathlib.Core.List.{List, [], ◌∷◌, ◌++◌}
use mathlib.Core.Option.{some}
use ccas.Common.Lists.{get_elem?, set_elem, length}

module _ {A : Type 0} (f : A → Bool) where
  abbrev pub holds_at : List A → ℕ → Bool
  holds_at [] i = false
  holds_at (x ∷ xs) zero = f x
  holds_at (x ∷ xs) (suc i) = holds_at xs i

  pub holds_at-append :
      (xs ys : List A) (i : ℕ) → holds_at xs i ≡ true → holds_at (xs ++ ys) i ≡ true
  holds_at-append [] ys i h = absurd (cc)
  holds_at-append (x ∷ xs) ys zero h = h
  holds_at-append (x ∷ xs) ys (suc i) h = holds_at-append xs ys i h

  pub holds_at-set_elem_ne :
      (xs : List A) (i k : ℕ) (v : A)
      → k ≢ i
      → holds_at xs k ≡ true
      → holds_at (set_elem xs i v) k ≡ true
  holds_at-set_elem_ne [] i k v ne h = h
  holds_at-set_elem_ne (x ∷ xs) zero zero v ne h = absurd (ne refl)
  holds_at-set_elem_ne (x ∷ xs) zero (suc k) v ne h = h
  holds_at-set_elem_ne (x ∷ xs) (suc i) zero v ne h = h
  holds_at-set_elem_ne (x ∷ xs) (suc i) (suc k) v ne h =
      holds_at-set_elem_ne xs i k v (λ e. ne (ap suc e)) h

  pub holds_at-set_elem :
      (xs : List A) (i : ℕ) (v : A) {x : A}
      → get_elem? xs i ≡ some x
      → f v ≡ true
      → holds_at (set_elem xs i v) i ≡ true
  holds_at-set_elem [] i v e h = absurd (cc)
  holds_at-set_elem (y ∷ xs) zero v e h = h
  holds_at-set_elem (y ∷ xs) (suc i) v e h = holds_at-set_elem xs i v e h

  pub get_elem?-holds_at :
      (xs : List A) (i : ℕ) {x : A} → get_elem? xs i ≡ some x → f x ≡ true → holds_at xs i ≡ true
  get_elem?-holds_at [] i e h = absurd (cc)
  get_elem?-holds_at (y ∷ xs) zero {x} e h = let same : y ≡ x = cc in ap f same ∙ h
  get_elem?-holds_at (y ∷ xs) (suc i) e h = get_elem?-holds_at xs i e h

  pub holds_at-get_elem? :
      (xs : List A) (i : ℕ)
      → holds_at xs i ≡ true
      → (x : A) × (get_elem? xs i ≡ some x) × (f x ≡ true)
  holds_at-get_elem? [] i h = absurd (cc)
  holds_at-get_elem? (x ∷ xs) zero h = (x, refl, h)
  holds_at-get_elem? (x ∷ xs) (suc i) h = holds_at-get_elem? xs i h

-- The element at a position has a property.
module _ {ℓ} {A : Type ℓ} (P : A → Type 0) where
  abbrev pub At : List A → ℕ → Type 0
  At [] i = ⊥
  At (x ∷ xs) zero = P x
  At (x ∷ xs) (suc i) = At xs i

  pub At-append : (xs ys : List A) (i : ℕ) → At xs i → At (xs ++ ys) i
  At-append [] ys i h = absurd h
  At-append (x ∷ xs) ys zero h = h
  At-append (x ∷ xs) ys (suc i) h = At-append xs ys i h

  pub At-last : (xs : List A) (x : A) → P x → At (xs ++ x ∷ []) (length xs)
  At-last [] x h = h
  At-last (y ∷ xs) x h = At-last xs x h

  pub At-set_elem :
      (xs : List A) (i j : ℕ) (new : A)
      → ((old : A) → get_elem? xs j ≡ some old → i ≡ j → P old → P new)
      → At xs i
      → At (set_elem xs j new) i
  At-set_elem [] i j new k h = h
  At-set_elem (x ∷ xs) zero zero new k h = k x refl refl h
  At-set_elem (x ∷ xs) zero (suc j) new k h = h
  At-set_elem (x ∷ xs) (suc i) zero new k h = h
  At-set_elem (x ∷ xs) (suc i) (suc j) new k h =
      At-set_elem xs i j new (λ old e same. k old e (ap suc same)) h

  pub At-get_elem? : (xs : List A) (i : ℕ) → At xs i → (x : A) × (get_elem? xs i ≡ some x) × P x
  At-get_elem? [] i h = absurd h
  At-get_elem? (x ∷ xs) zero h = (x, refl, h)
  At-get_elem? (x ∷ xs) (suc i) h = At-get_elem? xs i h
