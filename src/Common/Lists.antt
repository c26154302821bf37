-- ===== src/Common/Lists.antt =====
-- Predicates on lists by recursion, and lists measured by native numbers.
use Prim.Native.Nat.{ℕ, zero, suc}
use mathlib.Core.Path.{◌≡◌, refl, sym, ap, subst}
use mathlib.Core.Logic.{◌≢◌}
use mathlib.Core.List.{List, [], ◌∷◌, ◌++◌, Memᴰ}
use mathlib.Core.Option.{Option, none, some}

module _ {ℓ} {A : Type ℓ} where
  abbrev pub length : List A → ℕ
  length [] = 0
  length (x ∷ xs) = suc (length xs)

  abbrev pub get_elem? : List A → ℕ → Option A
  get_elem? [] i = none
  get_elem? (x ∷ xs) zero = some x
  get_elem? (x ∷ xs) (suc i) = get_elem? xs i

  -- A write out of bounds changes nothing.
  abbrev pub set_elem : List A → ℕ → A → List A
  set_elem [] i v = []
  set_elem (x ∷ xs) zero v = v ∷ xs
  set_elem (x ∷ xs) (suc i) v = x ∷ set_elem xs i v

  abbrev pub take : ℕ → List A → List A
  take zero xs = []
  take (suc n) [] = []
  take (suc n) (x ∷ xs) = x ∷ take n xs

  pub length-snoc : (xs : List A) (x : A) → length (xs ++ x ∷ []) ≡ suc (length xs)
  length-snoc [] x = refl
  length-snoc (y ∷ xs) x = ap suc (length-snoc xs x)

  pub get_elem?-set_elem_ne :
      (xs : List A) (i j : ℕ) (v : A) → j ≢ i → get_elem? (set_elem xs i v) j ≡ get_elem? xs j
  get_elem?-set_elem_ne [] i j v h = refl
  get_elem?-set_elem_ne (x ∷ xs) zero zero v h = absurd (h refl)
  get_elem?-set_elem_ne (x ∷ xs) zero (suc j) v h = refl
  get_elem?-set_elem_ne (x ∷ xs) (suc i) zero v h = refl
  get_elem?-set_elem_ne (x ∷ xs) (suc i) (suc j) v h =
      get_elem?-set_elem_ne xs i j v (λ e. h (ap suc e))

  pub set_elem-same : (xs : List A) (i : ℕ) {v : A} → get_elem? xs i ≡ some v → set_elem xs i v ≡ xs
  set_elem-same [] i h = absurd (cc)
  set_elem-same (x ∷ xs) zero h = ap (λ y. y ∷ xs) (cc)
  set_elem-same (x ∷ xs) (suc i) h = ap (λ ys. x ∷ ys) (set_elem-same xs i h)

  pub get_elem?-append :
      (xs ys : List A) (j : ℕ) {v : A} → get_elem? xs j ≡ some v → get_elem? (xs ++ ys) j ≡ some v
  get_elem?-append [] ys j h = absurd (cc)
  get_elem?-append (x ∷ xs) ys zero h = h
  get_elem?-append (x ∷ xs) ys (suc j) h = get_elem?-append xs ys j h

  abbrev pub replicate : ℕ → A → List A
  replicate zero x = []
  replicate (suc n) x = x ∷ replicate n x

  abbrev pub All {κ} : (A → Type κ) → List A → Type κ
  All P [] = Unit
  All P (x ∷ xs) = P x × All P xs

  pub All-map {κ μ} :
      {P : A → Type κ} {Q : A → Type μ} (xs : List A) → ((x : A) → P x → Q x) → All P xs → All Q xs
  All-map [] f h = tt
  All-map (x ∷ xs) f h = (f x h.0, All-map xs f h.1)

module _ {ℓ κ} {A : Type ℓ} (P : A → Type κ) where
  pub All-append : (xs ys : List A) → All P xs → All P ys → All P (xs ++ ys)
  All-append [] ys hx hy = hy
  All-append (x ∷ xs) ys hx hy = (hx.0, All-append xs ys hx.1 hy)

  pub All-split : (xs ys : List A) → All P (xs ++ ys) → All P xs × All P ys
  All-split [] ys h = (tt, h)
  All-split (x ∷ xs) ys h = let (hx, hy) = All-split xs ys h.1 in ((h.0, hx), hy)

  pub set_elem-All : (xs : List A) (i : ℕ) (v : A) → P v → All P xs → All P (set_elem xs i v)
  set_elem-All [] i v h a = tt
  set_elem-All (x ∷ xs) zero v h a = (h, a.1)
  set_elem-All (x ∷ xs) (suc i) v h a = (a.0, set_elem-All xs i v h a.1)

  pub All-get_elem? : (xs : List A) (i : ℕ) {v : A} → All P xs → get_elem? xs i ≡ some v → P v
  All-get_elem? [] i a e = absurd (cc)
  All-get_elem? (x ∷ xs) zero a e = subst P (cc) a.0
  All-get_elem? (x ∷ xs) (suc i) a e = All-get_elem? xs i a.1 e

  pub All-Memᴰ : (xs : List A) {x : A} → All P xs → Memᴰ x xs → P x
  All-Memᴰ [] a m = elim m [ ]
  All-Memᴰ (y ∷ xs) a (Memᴰ.head e) = subst P (sym e) a.0
  All-Memᴰ (y ∷ xs) a (Memᴰ.tail m) = All-Memᴰ xs a.1 m

  pub All-of_Memᴰ : (xs : List A) → ((x : A) → Memᴰ x xs → P x) → All P xs
  All-of_Memᴰ [] h = tt
  All-of_Memᴰ (x ∷ xs) h = (h x (Memᴰ.head refl), All-of_Memᴰ xs (λ y m. h y (Memᴰ.tail m)))

  pub All-prop : ((x : A) → IsProp (P x)) → (xs : List A) → IsProp (All P xs)
  All-prop prop [] = hlevel
  All-prop prop (x ∷ xs) = hlevel (prop x, All-prop prop xs)
