-- ===== src/Benchmark/Occurs.antt =====
-- How often a key stands in a list.
use text.Mathlib.TextLemmas.{append_cancel_left}
use mathlib.Core.List.{Memᴰ, Perm}
use ccas.Common.{
  ℕ, zero, suc, ◌+◌, ◌≤◌, ◌<◌, String, ◌==◌, ◌≡◌, ◌≢◌, refl, sym, ap, subst, ◌∙◌, inl, inr, true,
  false, List, [], ◌∷◌, ◌++◌, arith, All, if◌then◌else◌, length, take, text_cases, eq_refl,
}
use ccas.Common.Counts.{count_if, count_if-Perm}
use ccas.Common.Decimal.{atoi, atoi-decimal}
use ccas.Common.Sums.{sum_to, sum_to-change, sum_to_zero, sum_to-le}
use ccas.Benchmark.{key_name, seen}

-- How often a key stands in a list.
abbrev pub occurs : String → List String → ℕ
occurs k = count_if (λ x. x == k)

-- No key stands there twice.
abbrev pub NoTwice : List String → Type 0
NoTwice keys = (k : String) → occurs k keys ≤ 1

-- The name of a number below `n`.
abbrev pub IsKey : ℕ → String → Type 0
IsKey n k = (i : ℕ) × (i < n) × (k ≡ key_name i)

pub key_name-inj : (i j : ℕ) → key_name i ≡ key_name j → i ≡ j
unfolding key_name
key_name-inj i j e =
    sym (atoi-decimal i) ∙ (ap atoi (append_cancel_left "key-" _ _ e) ∙ atoi-decimal j)

-- One more key in front counts at its number and at no other.
occurs-same :
    (i : ℕ) (ks : List String)
    → occurs (key_name i) (key_name i ∷ ks) ≡ suc (occurs (key_name i) ks)
occurs-same i ks = rw (eq_refl (key_name i)) (omega arith)

occurs-ne :
    (i j : ℕ) (ks : List String)
    → j ≢ i
    → occurs (key_name j) ks ≡ occurs (key_name j) (key_name i ∷ ks)
occurs-ne i j ks ne = elim (text_cases (key_name i) (key_name j)) [
  | inl (e, same) ↦ absurd (ne (sym (key_name-inj i j e)))
  | inr (apart, differ) ↦ rw differ (omega arith)
]

-- A list of keys is as long as its keys occur.
pub sum_to-occurs :
    (n : ℕ) (ks : List String)
    → All (IsKey n) ks
    → sum_to (λ i. occurs (key_name i) ks) n ≡ length ks
sum_to-occurs n [] a = sum_to_zero n
sum_to-occurs n (k ∷ ks) ((i, below, e), a) =
    let rest = sum_to-occurs n ks a in
    let change =
      sum_to-change (λ j. occurs (key_name j) ks) (λ j. occurs (key_name j) (key_name i ∷ ks)) n i
        below (λ j ne. occurs-ne i j ks ne) in
    let more = occurs-same i ks in
    subst (λ x. sum_to (λ j. occurs (key_name j) (x ∷ ks)) n ≡ suc (length ks)) (sym e)
      (omega arith)

-- There are only so many different keys.
pub length-NoTwice : (n : ℕ) (ks : List String) → All (IsKey n) ks → NoTwice ks → length ks ≤ n
length-NoTwice n ks a once =
    let all = sum_to-occurs n ks a in
    let few = sum_to-le (λ i. occurs (key_name i) ks) n (λ i. once (key_name i)) in omega arith

pub sum_to-ge : (f : ℕ → ℕ) (n : ℕ) → ((i : ℕ) → i < n → 1 ≤ f i) → n ≤ sum_to f n
unfolding sum_to
sum_to-ge f zero h = omega arith
sum_to-ge f (suc n) h =
    let rest = sum_to-ge f n (λ i l. h i (omega arith)) in
    let last = h n (omega arith) in omega arith

pub seen-occurs : (ks : List String) (k : String) → seen ks k ≡ true → 1 ≤ occurs k ks
seen-occurs [] k h = absurd (cc)
seen-occurs (x ∷ ks) k h = ground (arith, seen-occurs ks k)

pub unseen-occurs : (ks : List String) (k : String) → seen ks k ≡ false → occurs k ks ≡ 0
unseen-occurs [] k h = refl
unseen-occurs (x ∷ ks) k h = ground (arith, unseen-occurs ks k)

pub occurs-snoc :
    (ks : List String) (x k : String)
    → occurs k (ks ++ x ∷ []) ≡ occurs k ks + (if x == k then 1 else 0)
occurs-snoc [] x k = omega arith
occurs-snoc (y ∷ ks) x k = let rest = occurs-snoc ks x k in omega arith

pub seen-snoc : (ks : List String) (x : String) → seen (ks ++ x ∷ []) x ≡ true
seen-snoc [] x = rw (eq_refl x) refl
seen-snoc (y ∷ ks) x = let rest = seen-snoc ks x in ground arith

pub seen-kept : (ks : List String) (x k : String) → seen ks k ≡ true → seen (ks ++ x ∷ []) k ≡ true
seen-kept [] x k h = absurd (cc)
seen-kept (y ∷ ks) x k h = ground (arith, seen-kept ks x k)

pub occurs-Perm : (k : String) {xs ys : List String} → Perm xs ys → occurs k xs ≡ occurs k ys
occurs-Perm k p = count_if-Perm (λ x. x == k) p

pub occurs-take : (n : ℕ) (k : String) (xs : List String) → occurs k (take n xs) ≤ occurs k xs
occurs-take zero k xs = omega arith
occurs-take (suc n) k [] = omega arith
occurs-take (suc n) k (x ∷ xs) = let rest = occurs-take n k xs in omega arith

pub length-take : (n : ℕ) (xs : List String) → n ≤ length xs → length (take n xs) ≡ n
length-take zero xs h = refl
length-take (suc n) [] h = absurd (omega arith)
length-take (suc n) (x ∷ xs) h = ap suc (length-take n xs (omega arith))

pub Memᴰ-occurs : (k : String) (ks : List String) → Memᴰ k ks → 1 ≤ occurs k ks
Memᴰ-occurs k [] m = elim m [ ]
Memᴰ-occurs k (x ∷ ks) (Memᴰ.head e) =
    let self = eq_refl x in subst (λ j. 1 ≤ occurs j (x ∷ ks)) (sym e) (ground arith)
Memᴰ-occurs k (x ∷ ks) (Memᴰ.tail m) = let rest = Memᴰ-occurs k ks m in omega arith

pub occurs-Memᴰ : (k : String) (ks : List String) → 1 ≤ occurs k ks → Memᴰ k ks
occurs-Memᴰ k [] h = absurd (omega arith)
occurs-Memᴰ k (x ∷ ks) h = elim (text_cases x k) [
  | inl (e, same) ↦ Memᴰ.head (sym e)
  | inr (ne, differ) ↦ Memᴰ.tail (occurs-Memᴰ k ks (ground arith))
]
