-- ===== src/Ccaas/Epoch/Sorting.antt =====
-- The order of a batch. `sort.Slice` leaves the order of equal ids open, so it is a parameter with
-- its documented contract; a batch with distinct ids has one sorted order.
use mathlib.Core.List.{Mem, Pairwise, mem-cons_of_mem, Perm, mem-cons, not-mem-nil, mem-cons_self}
use mathlib.Core.List.Perm
use mathlib.Core.Logic.Or
use ccas.Common.{◌≡◌, refl, sym, subst, ◌≢◌, Bool, false, List, [], ◌∷◌, All, String-set}
use ccas.Common.Sorting
use ccas.Common.Order.{text_lt, text_lt_antisymm, text_lt_trans, text_lt_asymm}
use ccas.Ccaas.Epoch.{PendingTxn}

-- The comparison that is passed to `sort.Slice`.
abbrev pub less : PendingTxn → PendingTxn → Bool
less p q = text_lt p.req.txn_id q.req.txn_id

-- No transaction stands behind one with a larger id.
abbrev pub IsSorted : List PendingTxn → Type 0
IsSorted = Sorting.IsSorted less

-- The contract of `sort.Slice`.
abbrev pub Sorts : (List PendingTxn → List PendingTxn) → Type 0
Sorts = Sorting.Sorts less

-- No two transactions of the batch share an id.
abbrev pub IdsDistinct : List PendingTxn → Type 0
IdsDistinct [] = Unit
IdsDistinct (p ∷ ps) = All (λ q. q.req.txn_id ≢ p.req.txn_id) ps × IdsDistinct ps

PendingTxn-set : IsSet PendingTxn
PendingTxn-set = hlevel String-set

All-Mem :
    (P : PendingTxn → Type 0) (ps : List PendingTxn) {p : PendingTxn}
    → ((q : PendingTxn) → IsProp (P q))
    → All P ps
    → Mem p ps
    → P p
All-Mem P [] prop a m = absurd (not-mem-nil m)
All-Mem P (x ∷ ps) {p} prop a m =
    Or.elim (prop p) (mem-cons.0 m) (λ e. subst P (sym e) a.0) (All-Mem P ps prop a.1)

-- Two sorted orders of one batch begin alike.
heads-eq :
    (x y : PendingTxn) (xs ys : List PendingTxn)
    → IdsDistinct (x ∷ xs)
    → Perm (x ∷ xs) (y ∷ ys)
    → IsSorted (x ∷ xs)
    → IsSorted (y ∷ ys)
    → x ≡ y
heads-eq x y xs ys d perm sx sy =
    Or.elim (PendingTxn-set x y) (mem-cons.0 ((Perm.mem_iff perm).0 mem-cons_self)) (λ e. e)
      λ x_later.
        Or.elim (PendingTxn-set x y) (mem-cons.0 ((Perm.mem_iff perm).1 mem-cons_self)) (λ e. sym e)
          λ y_later.
            let y_not_less = All-Mem (λ q. less q x ≡ false) xs (λ q. hlevel) sx.0 y_later in
            let x_not_less = All-Mem (λ q. less q y ≡ false) ys (λ q. hlevel) sy.0 x_later in
            absurd (
              All-Mem (λ q. q.req.txn_id ≢ x.req.txn_id) xs (λ q. hlevel) d.0 y_later
                (text_lt_antisymm y.req.txn_id x.req.txn_id y_not_less x_not_less))

All-of_mem :
    (P : PendingTxn → Type 0) (ps : List PendingTxn)
    → ((q : PendingTxn) → Mem q ps → P q)
    → All P ps
All-of_mem P [] h = tt
All-of_mem P (p ∷ ps) h = (h p mem-cons_self, All-of_mem P ps (λ q m. h q (mem-cons_of_mem p m)))

-- What holds of a batch holds of it in any order.
pub Perm-All :
    (P : PendingTxn → Type 0) (xs ys : List PendingTxn)
    → ((q : PendingTxn) → IsProp (P q))
    → Perm xs ys
    → All P ys
    → All P xs
Perm-All P xs ys prop p h = All-of_mem P xs (λ q m. All-Mem P ys prop h ((Perm.mem_iff p).0 m))

-- A batch with distinct ids has only one sorted order.
pub IsSorted-unique :
    (xs ys : List PendingTxn) → IdsDistinct xs → Perm xs ys → IsSorted xs → IsSorted ys → xs ≡ ys
IsSorted-unique [] [] d perm sx sy = refl
IsSorted-unique [] (y ∷ ys) d perm sx sy = absurd (cc (Perm.nil-eq perm))
IsSorted-unique (x ∷ xs) [] d perm sx sy = absurd (cc (Perm.eq-nil perm))
IsSorted-unique (x ∷ xs) (y ∷ ys) d perm sx sy =
    let e = heads-eq x y xs ys d perm sx sy in
    let tails = Perm.cons_inv (subst (λ z. Perm (x ∷ xs) (z ∷ ys)) (sym e) perm) in
    cc (e, IsSorted-unique xs ys d.1 tails sx.1 sy.1)

abbrev IdsDiffer : PendingTxn → PendingTxn → Type 0
IdsDiffer p q = q.req.txn_id ≢ p.req.txn_id

IdsDistinct-Pairwise : (ps : List PendingTxn) → IdsDistinct ps → Pairwise IdsDiffer ps
IdsDistinct-Pairwise [] d = Pairwise.nil
IdsDistinct-Pairwise (p ∷ ps) d =
    Pairwise.cons (λ q m. All-Mem (IdsDiffer p) ps (λ r. hlevel) d.0 m)
      (IdsDistinct-Pairwise ps d.1)

Pairwise-IdsDistinct : (ps : List PendingTxn) → Pairwise IdsDiffer ps → IdsDistinct ps
Pairwise-IdsDistinct [] d = tt
Pairwise-IdsDistinct (p ∷ ps) (Pairwise.cons h d) =
    (All-of_mem (IdsDiffer p) ps h, Pairwise-IdsDistinct ps d)

pub Perm-IdsDistinct : (xs ys : List PendingTxn) → Perm xs ys → IdsDistinct xs → IdsDistinct ys
Perm-IdsDistinct xs ys p d = Pairwise-IdsDistinct ys (
    Perm.pairwise {R = IdsDiffer} (λ a b. hlevel) (λ a b h e. h (sym e)) p
      (IdsDistinct-Pairwise xs d))

-- Two sorts of two arrivals of the same batch agree.
pub Sorts-agree :
    (sort sort' : List PendingTxn → List PendingTxn) (batch batch' : List PendingTxn)
    → Sorts sort
    → Sorts sort'
    → IdsDistinct batch
    → Perm batch batch'
    → sort batch ≡ sort' batch'
Sorts-agree sort sort' batch batch' h h' d p =
    IsSorted-unique (sort batch) (sort' batch')
      (Perm-IdsDistinct batch (sort batch) (Perm.symm (h.permutes batch)) d)
      (Perm.trans (h.permutes batch) (Perm.trans p (Perm.symm (h'.permutes batch'))))
      (h.sorted batch) (h'.sorted batch')

-- A sort by id.
abbrev pub by_id : List PendingTxn → List PendingTxn
by_id = Sorting.insertion_sort less

pub by_id-Sorts : Sorts by_id
by_id-Sorts =
    Sorting.insertion_sort-Sorts less (λ p q. text_lt_asymm p.req.txn_id q.req.txn_id)
      (λ p q r. text_lt_trans p.req.txn_id q.req.txn_id r.req.txn_id)
