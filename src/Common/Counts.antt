-- ===== src/Common/Counts.antt =====
-- How many elements of a list pass a test.
use Prim.Native.Nat.{ℕ, zero, suc, ◌+◌}
use mathlib.Core.Path.{◌≡◌, refl, subst, ◌∙◌}
use mathlib.Core.Logic.{∥∥₁_elim}
use mathlib.Core.Bool.{Bool, true}
use mathlib.Core.Option.{some}
use ccas.Common.Lists.{All, length, get_elem?, set_elem}
use mathlib.Core.List.{List, [], ◌∷◌, ◌++◌, Perm, Permᴰ}
use native.Mathlib.Nat.{ℕ_set}
use native.Mathlib.Omega.{arith}
use ccas.Common.Tests.{if◌then◌else◌}

module _ {A : Type 0} (f : A → Bool) where
  abbrev pub count_if : List A → ℕ
  count_if [] = 0
  count_if (x ∷ xs) = (if f x then 1 else 0) + count_if xs

  pub count_if-append : (xs ys : List A) → count_if (xs ++ ys) ≡ count_if xs + count_if ys
  count_if-append [] ys = omega arith
  count_if-append (x ∷ xs) ys = let rest = count_if-append xs ys in omega arith

  count_if-Permᴰ : {xs ys : List A} → Permᴰ xs ys → count_if xs ≡ count_if ys
  count_if-Permᴰ Permᴰ.nil = refl
  count_if-Permᴰ (Permᴰ.cons {a} {b} {l₁} {l₂} e d) =
      let rest = count_if-Permᴰ d in
      subst (λ x. count_if (a ∷ l₁) ≡ count_if (x ∷ l₂)) e (omega arith)
  count_if-Permᴰ (Permᴰ.swap {a} {b} {a'} {b'} {l} e e') =
      subst (λ x. count_if (a ∷ b ∷ l) ≡ count_if (a' ∷ x ∷ l)) e
        (subst (λ x. count_if (a ∷ b ∷ l) ≡ count_if (x ∷ a ∷ l)) e' (omega arith))
  count_if-Permᴰ (Permᴰ.trans d d') = count_if-Permᴰ d ∙ count_if-Permᴰ d'

  pub count_if-Perm : {xs ys : List A} → Perm xs ys → count_if xs ≡ count_if ys
  count_if-Perm {xs} {ys} p = ∥∥₁_elim p (ℕ_set (count_if xs) (count_if ys)) count_if-Permᴰ

  pub count_if-set_elem :
      (xs : List A) (i : ℕ) (x y : A)
      → get_elem? xs i ≡ some x
      → count_if (set_elem xs i y) + (if f x then 1 else 0) ≡ count_if xs + (if f y then 1 else 0)
  count_if-set_elem [] i x y e = absurd (cc)
  count_if-set_elem (z ∷ xs) zero x y e =
      let same : z ≡ x = cc in
      subst
        (λ v.
          (if f y then 1 else 0) + count_if xs + (if f v then 1 else 0)
          ≡ (if f z then 1 else 0) + count_if xs + (if f y then 1 else 0))
        same (omega arith)
  count_if-set_elem (z ∷ xs) (suc i) x y e = let rest = count_if-set_elem xs i x y e in omega arith

  pub count_if-All : (xs : List A) → All (λ x. f x ≡ true) xs → count_if xs ≡ length xs
  count_if-All [] h = refl
  count_if-All (x ∷ xs) h = rw h.0 (omega (arith, count_if-All xs h.1))
