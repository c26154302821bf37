-- ===== src/Metrics/Summary.antt =====
-- What the report says of the calls that came before it.
use mathlib.Core.List.{Perm}
use ccas.Common.{
  ℕ, ◌+◌, ◌%◌, ◌<◌, ◌≡◌, refl, false, List, [], ◌∷◌, ◌++◌, arith, All, length, inc64, u64_mod,
}
use ccas.Common.Sorting
use ccas.Metrics.{
  less, Floats, Collector, new_collector, record_commit, record_abort, record_epoch_size,
  record_conflict, report, Note, commits, aborts, ends_epoch, conflicts, note, note_all,
}

-- How many calls are of a kind.
abbrev pub is_commit : Note → ℕ
is_commit (commits l) = 1
is_commit _ = 0

abbrev pub is_abort : Note → ℕ
is_abort (aborts l) = 1
is_abort _ = 0

abbrev pub is_conflict : Note → ℕ
is_conflict conflicts = 1
is_conflict _ = 0

abbrev pub count_notes : (Note → ℕ) → List Note → ℕ
count_notes f [] = 0
count_notes f (e ∷ es) = f e + count_notes f es

-- The latencies of the transactions, in order.
abbrev pub latencies_of : List Note → List ℕ
latencies_of [] = []
latencies_of (commits l ∷ es) = l ∷ latencies_of es
latencies_of (aborts l ∷ es) = l ∷ latencies_of es
latencies_of (_ ∷ es) = latencies_of es

-- A counter that wraps has counted the calls of its kind.
module _ (f : Note → ℕ) (counter : Collector → ℕ)
    (counts : (c : Collector) (e : Note)
      → counter c < u64_mod
      → counter (note c e) ≡ (counter c + f e) % u64_mod) where
  note_all-counter :
      (c : Collector) (es : List Note)
      → counter c < u64_mod
      → counter (note_all c es) ≡ (counter c + count_notes f es) % u64_mod
  unfolding note_all u64_mod
  note_all-counter c [] h = omega (arith, h)
  note_all-counter c (e ∷ es) h =
      let now = counts c e h in
      let rest = note_all-counter (note c e) es (omega (arith, now)) in omega (arith, now, rest)

  note_all-new :
      (es : List Note)
      → counter new_collector ≡ 0
      → counter (note_all new_collector es) ≡ count_notes f es % u64_mod
  unfolding u64_mod
  note_all-new es z =
      let all = note_all-counter new_collector es (omega (arith, z)) in omega (arith, all, z)

commits-counted :
    (c : Collector) (e : Note)
    → c.total_committed < u64_mod
    → (note c e).total_committed ≡ (c.total_committed + is_commit e) % u64_mod
unfolding note record_commit record_abort record_epoch_size record_conflict inc64 u64_mod
commits-counted c (commits l) h = refl
commits-counted c (aborts l) h = omega arith
commits-counted c (ends_epoch n) h = omega arith
commits-counted c conflicts h = omega arith

aborts-counted :
    (c : Collector) (e : Note)
    → c.total_aborted < u64_mod
    → (note c e).total_aborted ≡ (c.total_aborted + is_abort e) % u64_mod
unfolding note record_commit record_abort record_epoch_size record_conflict inc64 u64_mod
aborts-counted c (commits l) h = omega arith
aborts-counted c (aborts l) h = refl
aborts-counted c (ends_epoch n) h = omega arith
aborts-counted c conflicts h = omega arith

conflicts-counted :
    (c : Collector) (e : Note)
    → c.conflict_count < u64_mod
    → (note c e).conflict_count ≡ (c.conflict_count + is_conflict e) % u64_mod
unfolding note record_commit record_abort record_epoch_size record_conflict inc64 u64_mod
conflicts-counted c (commits l) h = omega arith
conflicts-counted c (aborts l) h = omega arith
conflicts-counted c (ends_epoch n) h = omega arith
conflicts-counted c conflicts h = refl

-- No duration stands behind a longer one.
abbrev pub IsSorted : List ℕ → Type 0
IsSorted = Sorting.IsSorted less

-- The contract of `sort.Slice`.
abbrev pub Sorts : (List ℕ → List ℕ) → Type 0
Sorts = Sorting.Sorts less

-- The latencies `ls` in an order in which `x` stands behind `i` that are not longer, and before
-- others that are not shorter.
pub record Ranks (ls : List ℕ) (i x : ℕ) : Type 0 where
  pub before : List ℕ
  pub after : List ℕ
  pub all_of_them : Perm (before ++ x ∷ after) ls
  pub rank : length before ≡ i
  pub not_longer : All (λ y. less x y ≡ false) before
  pub not_shorter : All (λ y. less y x ≡ false) after

module _ {F : Type 0} (fl : Floats F) (sort : List ℕ → List ℕ) where
  -- The three counters of the report are the numbers of the calls that recorded a commit, an abort
  -- and a conflict, up to the wrap-around of a uint64.
  pub report-counts :
      (es : List Note) (elapsed : ℕ)
      → let r = report fl sort (note_all new_collector es) elapsed in
        (r.total_committed ≡ count_notes is_commit es % u64_mod)
        × (r.total_aborted ≡ count_notes is_abort es % u64_mod)
        × (r.conflict_count ≡ count_notes is_conflict es % u64_mod)
  unfolding report
  report-counts es elapsed = (
    note_all-new is_commit (λ c. c.total_committed) commits-counted es refl,
    note_all-new is_abort (λ c. c.total_aborted) aborts-counted es refl,
    note_all-new is_conflict (λ c. c.conflict_count) conflicts-counted es refl,
  )

-- A sort of durations.
abbrev pub by_duration : List ℕ → List ℕ
by_duration = Sorting.insertion_sort less

pub by_duration-Sorts : Sorts by_duration
unfolding u64_mod
by_duration-Sorts =
    Sorting.insertion_sort-Sorts less (λ a b h. ground arith) (λ a b c h k. ground arith)
