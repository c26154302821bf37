-- ===== src/Service/Jobs.antt =====
-- Programs that call an engine under epoch certification: a list of jobs beside the clients of the
-- service, one for each transaction. A job that has called `Engine.Commit` awaits the answer, and
-- counts the commit once it has it.
pub mod Working
pub mod Calling
pub mod Moving
use ccas.Common.Counts.{count_if}
use ccas.Common.Pairs.{Paired}
use ccas.Common.Positions.{holds_at, holds_at-set_elem_ne}
use ccas.Common.{
  ℕ, zero, suc, ◌+◌, ◌≤◌, ◌≡◌, ◌≢◌, Bool, true, false, some, List, [], ◌∷◌, ◌++◌, ◌&&◌, arith, eqb,
  not, length, All, get_elem?, set_elem, set_elem-same, subst, if◌then◌else◌,
}
use ccas.Ccaas.Epoch.{PendingTxn}
use ccas.World.{Client, Done}
use ccas.World.Settling.{done_of}
use ccas.Service.{Service, waits_in, pending}

-- What a program has to say of its jobs: which await an answer, how a job fits its transaction, and
-- what may commit. An answer neither adds to the record of a transaction nor spoils the fit.
pub record Rules (J : Type 0) : Type 1 where
  pub awaits : J → Bool
  pub Ok : J → Client → Type 0
  pub Good : Done → Type 0
  pub answers :
      (j : J) (c c' : Client)
      → awaits j ≡ true
      → c'.seen ≡ c.seen
      → c'.txn.write_set ≡ c.txn.write_set
      → Ok j c
      → Good (done_of c) × Ok j c'

abbrev pub uncommitted : Client → Bool
uncommitted c = not c.txn.committed

-- The pending transaction is that of this client.
abbrev pub is_of : ℕ → PendingTxn → Bool
is_of k p = eqb p.result_ch k

pub waits_in-none :
    (ps : List PendingTxn) (i : ℕ) → waits_in ps i ≡ false → count_if (is_of i) ps ≡ 0
unfolding waits_in
waits_in-none [] i h = omega arith
waits_in-none (p ∷ ps) i h = ground (arith, waits_in-none ps i)

module _ {J : Type 0} (rules : Rules J) where
  open rules use {awaits, Ok, Good}

  -- A job that has an answer and has not counted it counts if its transaction has committed.
  abbrev pub owes : J → Client → ℕ
  owes j c = if awaits j && c.txn.committed then 1 else 0

  abbrev pub owing : List J → List Client → ℕ
  owing [] cs = 0
  owing (j ∷ js) [] = 0
  owing (j ∷ js) (c ∷ cs) = owes j c + owing js cs

  pub owing-set :
      (js : List J) (cs : List Client) (i : ℕ) (j j' : J) (c c' : Client)
      → get_elem? js i ≡ some j
      → get_elem? cs i ≡ some c
      → owing (set_elem js i j') (set_elem cs i c') + owes j c ≡ owing js cs + owes j' c'
  owing-set [] cs i j j' c c' e f = absurd (cc)
  owing-set (x ∷ js) [] i j j' c c' e f = absurd (cc)
  owing-set (x ∷ js) (y ∷ cs) zero j j' c c' e f =
      let same_job : x ≡ j = cc in
      let same_client : y ≡ c = cc in
      let same : owes x y ≡ owes j c = cc (same_job, same_client) in omega arith
  owing-set (x ∷ js) (y ∷ cs) (suc i) j j' c c' e f =
      let rest = owing-set js cs i j j' c c' e f in omega arith

  pub owing-append :
      (js : List J) (cs : List Client) (j : J) (c : Client)
      → Paired Ok js cs
      → owing (js ++ j ∷ []) (cs ++ c ∷ []) ≡ owing js cs + owes j c
  owing-append [] [] j c h = omega arith
  owing-append [] (y ∷ cs) j c h = absurd h
  owing-append (x ∷ js) [] j c h = absurd h
  owing-append (x ∷ js) (y ∷ cs) j c h = let rest = owing-append js cs j c h.1 in omega arith

  -- The job behind a pending transaction awaits the answer, which has not come.
  abbrev pub Expects : List J → List Client → PendingTxn → Type 0
  Expects js cs p =
      (holds_at awaits js p.result_ch ≡ true) × (holds_at uncommitted cs p.result_ch ≡ true)

  -- A job that nobody waits for may change with its client.
  pub Expects-free :
      (js : List J) (cs : List Client) (i : ℕ) (j : J) (c : Client) (ps : List PendingTxn)
      → count_if (is_of i) ps ≡ 0
      → All (Expects js cs) ps
      → All (Expects (set_elem js i j) (set_elem cs i c)) ps
  Expects-free js cs i j c [] free h = tt
  Expects-free js cs i j c (p ∷ ps) free h =
      let ne : p.result_ch ≢ i = λ e. ground arith in
      (
        (
          holds_at-set_elem_ne awaits js i p.result_ch j ne h.0.0,
          holds_at-set_elem_ne uncommitted cs i p.result_ch c ne h.0.1,
        ),
        Expects-free js cs i j c ps (ground arith) h.1,
      )

  -- The jobs fit their transactions, what has committed is good, the pending transactions are those
  -- of different jobs that await an answer, and the commits that have been counted, `told`, and
  -- those that are owed are all there are.
  pub record Joined {S : Type 0} (told : ℕ) (js : List J) (w : Service S) : Type 0 where
    pub jobs_ok : Paired Ok js w.clients
    pub goods : All Good w.history
    pub expected : All (Expects js w.clients) (pending w)
    pub once : (k : ℕ) → count_if (is_of k) (pending w) ≤ 1
    pub all_told : told + owing js w.clients ≡ length w.history
