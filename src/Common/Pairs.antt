-- ===== src/Common/Pairs.antt =====
-- Two lists whose elements correspond one by one.
use Prim.Native.Nat.{ℕ, zero, suc}
use mathlib.Core.Path.{◌≡◌, subst}
use mathlib.Core.List.{List, [], ◌∷◌, ◌++◌}
use mathlib.Core.Option.{some}
use ccas.Common.Lists.{get_elem?, set_elem, set_elem-same}

module _ {A B : Type 0} (R : A → B → Type 0) where
  abbrev pub Paired : List A → List B → Type 0
  Paired [] [] = Unit {0}
  Paired (x ∷ xs) (y ∷ ys) = R x y × Paired xs ys
  Paired _ _ = ⊥

  pub Paired-append :
      (js : List A) (cs : List B) (j : A) (c : B)
      → Paired js cs
      → R j c
      → Paired (js ++ j ∷ []) (cs ++ c ∷ [])
  Paired-append [] [] j c h k = (k, tt)
  Paired-append [] (x ∷ cs) j c h k = absurd h
  Paired-append (x ∷ js) [] j c h k = absurd h
  Paired-append (x ∷ js) (y ∷ cs) j c h k = (h.0, Paired-append js cs j c h.1 k)

  pub Paired-set :
      (js : List A) (cs : List B) (i : ℕ) (j : A) (c : B)
      → Paired js cs
      → R j c
      → Paired (set_elem js i j) (set_elem cs i c)
  Paired-set [] [] i j c h k = tt
  Paired-set [] (x ∷ cs) i j c h k = absurd h
  Paired-set (x ∷ js) [] i j c h k = absurd h
  Paired-set (x ∷ js) (y ∷ cs) zero j c h k = (k, h.1)
  Paired-set (x ∷ js) (y ∷ cs) (suc i) j c h k = (h.0, Paired-set js cs i j c h.1 k)

  -- The first of a pair changes, the second stays.
  pub Paired-fst :
      (js : List A) (cs : List B) (i : ℕ) (j : A) (c : B)
      → Paired js cs
      → get_elem? cs i ≡ some c
      → R j c
      → Paired (set_elem js i j) cs
  Paired-fst js cs i j c h e k =
      subst (Paired (set_elem js i j)) (set_elem-same cs i e) (Paired-set js cs i j c h k)

  -- The second of a pair changes, the first stays.
  pub Paired-snd :
      (js : List A) (cs : List B) (i : ℕ) (j : A) (c : B)
      → Paired js cs
      → get_elem? js i ≡ some j
      → R j c
      → Paired js (set_elem cs i c)
  Paired-snd js cs i j c h e k =
      subst (λ l. Paired l (set_elem cs i c)) (set_elem-same js i e) (Paired-set js cs i j c h k)

  pub Paired-get :
      (js : List A) (cs : List B) (i : ℕ) {j : A} {c : B}
      → Paired js cs
      → get_elem? js i ≡ some j
      → get_elem? cs i ≡ some c
      → R j c
  Paired-get [] cs i h e f = absurd (cc)
  Paired-get (x ∷ js) [] i h e f = absurd h
  Paired-get (x ∷ js) (y ∷ cs) zero {j} {c} h e f =
      let same_job : x ≡ j = cc in
      let same_client : y ≡ c = cc in subst (λ k. R k c) same_job (subst (R x) same_client h.0)
  Paired-get (x ∷ js) (y ∷ cs) (suc i) h e f = Paired-get js cs i h.1 e f
