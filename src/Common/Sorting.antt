-- ===== src/Common/Sorting.antt =====
-- `sort.Slice`, which leaves the order of equal elements open: its documented contract, for any
-- comparison, and a sort that keeps it.
use mathlib.Core.Path.{◌≡◌, refl}
use mathlib.Core.Logic.{inl, inr}
use mathlib.Core.Bool.{Bool, true, false}
use mathlib.Core.Logic.{∥∥₁_elim}
use native.Mathlib.Nat.{ℕ_set}
use Prim.Native.Nat.{suc}
use mathlib.Core.Path.{ap, ◌∙◌, refl}
use mathlib.Core.List.{List, [], ◌∷◌, Perm, Permᴰ}
use mathlib.Core.List.Perm
use native.Mathlib.Omega.{arith}
use ccas.Common.Tests.{if◌then◌else◌, Bool-cases}
use ccas.Common.Lists.{All, All-map, length}

-- A permutation keeps the length.
Permᴰ-length {ℓ} : {A : Type ℓ} {xs ys : List A} → Permᴰ xs ys → length xs ≡ length ys
Permᴰ-length Permᴰ.nil = refl
Permᴰ-length (Permᴰ.cons e d) = ap suc (Permᴰ-length d)
Permᴰ-length (Permᴰ.swap e e') = refl
Permᴰ-length (Permᴰ.trans d d') = Permᴰ-length d ∙ Permᴰ-length d'

pub Perm-length {ℓ} : {A : Type ℓ} {xs ys : List A} → Perm xs ys → length xs ≡ length ys
Perm-length {xs = xs} {ys = ys} p = ∥∥₁_elim p (ℕ_set (length xs) (length ys)) Permᴰ-length

module _ {A : Type 0} (less : A → A → Bool) where
  -- Nothing stands behind something larger.
  abbrev pub IsSorted : List A → Type 0
  IsSorted [] = Unit
  IsSorted (x ∷ xs) = All (λ y. less y x ≡ false) xs × IsSorted xs

  -- The contract of `sort.Slice`.
  pub record Sorts (sort : List A → List A) : Type 0 where
    pub permutes : (xs : List A) → Perm (sort xs) xs
    pub sorted : (xs : List A) → IsSorted (sort xs)

  -- Insertion sort keeps the contract.
  insert : A → List A → List A
  insert p [] = p ∷ []
  insert p (q ∷ qs) = let rest = insert p qs in if less q p then q ∷ rest else p ∷ q ∷ qs

  unfoldable pub insertion_sort : List A → List A
  unfolding insert
  insertion_sort [] = []
  insertion_sort (p ∷ ps) = insert p (insertion_sort ps)

  insert-perm : (p : A) (qs : List A) → Perm (insert p qs) (p ∷ qs)
  unfolding insert
  insert-perm p [] = Perm.refl (p ∷ [])
  insert-perm p (q ∷ qs) = ground (
    arith,
    Perm.refl (p ∷ q ∷ qs),
    Perm.trans (Perm.cons q (insert-perm p qs)) (Perm.swap p q qs),
  )

  insert-All : (P : A → Type 0) (p : A) (qs : List A) → P p → All P qs → All P (insert p qs)
  unfolding insert
  insert-All P p [] h a = (h, tt)
  insert-All P p (q ∷ qs) h a = elim (Bool-cases (less q p)) [
    | inl e ↦ rw (e, insert) (a.0, insert-All P p qs h a.1)
    | inr e ↦ rw (e, insert) (h, a)
  ]

  insertion_sort-perm : (ps : List A) → Perm (insertion_sort ps) ps
  unfolding insertion_sort
  insertion_sort-perm [] = Perm.nil
  insertion_sort-perm (p ∷ ps) =
      Perm.trans (insert-perm p (insertion_sort ps)) (Perm.cons p (insertion_sort-perm ps))

  module _ (asymm : (a b : A) → less a b ≡ true → less b a ≡ false)
      (not_above_trans : (a b c : A) → less b a ≡ false → less c b ≡ false → less c a ≡ false) where
    insert-IsSorted : (p : A) (qs : List A) → IsSorted qs → IsSorted (insert p qs)
    unfolding insert
    insert-IsSorted p [] s = (tt, tt)
    insert-IsSorted p (q ∷ qs) s = elim (Bool-cases (less q p)) [
      | inl e ↦
          rw (e, insert)
            (insert-All (λ r. less r q ≡ false) p qs (asymm q p e) s.0, insert-IsSorted p qs s.1)
      | inr e ↦ rw (e, insert) ((e, All-map qs (λ r h. not_above_trans p q r e h) s.0), s)
    ]

    insertion_sort-IsSorted : (ps : List A) → IsSorted (insertion_sort ps)
    unfolding insertion_sort
    insertion_sort-IsSorted [] = tt
    insertion_sort-IsSorted (p ∷ ps) =
        insert-IsSorted p (insertion_sort ps) (insertion_sort-IsSorted ps)

    pub insertion_sort-Sorts : Sorts insertion_sort
    insertion_sort-Sorts = record {
      permutes = insertion_sort-perm;
      sorted = insertion_sort-IsSorted;
    }
