-- ===== src/Service/Invariant.antt =====
-- What holds of the service between two moves: the pending transactions are the requests of the
-- clients that wait for them.
use mathlib.Core.Option
use ccas.Common.{
  ℕ, zero, suc, ◌≡◌, ◌≢◌, refl, sym, ap, ◌∙◌, false, Option, some, List, [], ◌∷◌, ◌++◌, arith,
  get_elem?-set_elem_ne, All, All-map, get_elem?, set_elem,
}
use ccas.Types.{TxnRequest, TxnResult}
use ccas.Storage.{Store}
use ccas.Storage.Contract.{StoreLaws}
use ccas.Ccaas.Versions.{Coupled}
use ccas.Ccaas.Epoch.{PendingTxn}
use ccas.Execution.{Txn, request, finish}
use ccas.World.{Client}
use ccas.World.Serial.{Values, value_at, Serial}
use ccas.World.Invariant.{ClientOk}
use ccas.Service.{Service, waits_in, pending}

-- The request that client `i` would send.
abbrev pub request_of : List Client → ℕ → Option TxnRequest
request_of cs i = Option.map (λ cl. request cl.txn) (get_elem? cs i)

-- The pending transaction is what its client has asked for.
abbrev pub Waits : List Client → PendingTxn → Type 0
Waits cs p = request_of cs p.result_ch ≡ some p.req

pub request-finish : (txn : Txn) (res : TxnResult) → request (finish txn res) ≡ request txn
request-finish txn res = ground arith

-- A client that keeps its request.
pub request_of-same :
    (cs : List Client) (i j : ℕ) (cl cl' : Client)
    → get_elem? cs i ≡ some cl
    → request cl'.txn ≡ request cl.txn
    → request_of (set_elem cs i cl') j ≡ request_of cs j
request_of-same [] i j cl cl' h e = refl
request_of-same (c ∷ cs) zero zero cl cl' h e =
    ap some e ∙ ap (λ o. Option.map (λ x. request x.txn) o) (sym h)
request_of-same (c ∷ cs) zero (suc j) cl cl' h e = refl
request_of-same (c ∷ cs) (suc i) zero cl cl' h e = refl
request_of-same (c ∷ cs) (suc i) (suc j) cl cl' h e = request_of-same cs i j cl cl' h e

-- A client that nobody waits for.
pub request_of-other :
    (cs : List Client) (i j : ℕ) (cl' : Client)
    → j ≢ i
    → request_of (set_elem cs i cl') j ≡ request_of cs j
request_of-other cs i j cl' h =
    ap (λ o. Option.map (λ x. request x.txn) o) (get_elem?-set_elem_ne cs i j cl' h)

request_of-append :
    (cs ds : List Client) (j : ℕ) {r : TxnRequest}
    → request_of cs j ≡ some r
    → request_of (cs ++ ds) j ≡ some r
request_of-append [] ds j h = absurd (cc)
request_of-append (c ∷ cs) ds zero h = h
request_of-append (c ∷ cs) ds (suc j) h = request_of-append cs ds j h

pub Waits-append :
    (cs ds : List Client) (ps : List PendingTxn) → All (Waits cs) ps → All (Waits (cs ++ ds)) ps
Waits-append cs ds ps h = All-map ps (λ p e. request_of-append cs ds p.result_ch e) h

-- A free client may change: nobody waits for it.
pub Waits-free :
    (cs : List Client) (i : ℕ) (cl' : Client) (ps : List PendingTxn)
    → waits_in ps i ≡ false
    → All (Waits cs) ps
    → All (Waits (set_elem cs i cl')) ps
unfolding waits_in
Waits-free cs i cl' [] free h = tt
Waits-free cs i cl' (p ∷ ps) free h = (
  request_of-other cs i p.result_ch cl' (λ e. ground arith) ∙ h.0,
  Waits-free cs i cl' ps (ground arith) h.1,
)

module _ {S : Type 0} (st : Store S) (laws : StoreLaws st) where
  open laws use {table}

  -- The certifier is in lockstep with the store, every client's record is right, the committed
  -- transactions are a serial execution from `v`, and the pending ones are what was asked for.
  pub record ServiceOk (v : Values) (w : Service S) : Type 0 where
    pub in_step : Coupled w.cert.latest_version w.cert.commit_seq (table w.store)
    pub all_ok : All (ClientOk (table w.store)) w.clients
    pub serial : Serial v w.history (value_at (table w.store))
    pub asked : All (Waits w.clients) (pending w)
