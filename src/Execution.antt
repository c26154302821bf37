-- ===== src/Execution.antt =====
-- pkg/execution/execution.go: the engine that runs transactions against a store and a certifier.
pub mod Tidy
pub mod Own
use ccas.Common.{
  ℕ, String, Bool, true, false, Option, none, some, List, [], ◌∷◌, ◌++◌, inc64, if◌then◌else◌,
}
use ccas.Common.Text
use ccas.Dict
use ccas.Dict.{Dict}
use ccas.Types.{ReadEntry, WriteEntry, TxnRequest, TxnResult, ReadResult}
use ccas.Storage.{Store}
use ccas.Ccaas.{Certifier}

-- `ErrTxnAborted` and `ErrTxnCommitted`
pub data TxnError : Type 0 where
  txn_aborted txn_committed : TxnError

-- `type Txn struct`; a nil map is the empty one.
pub record Txn : Type 0 where
  pub id : String
  pub read_set : List ReadEntry
  pub write_set : List WriteEntry
  pub write_buffer : Dict String
  pub read_versions : Dict ℕ
  pub aborted : Bool
  pub committed : Bool

-- `type Engine struct`; the store and the certifier are parameters of the methods.
pub record Engine : Type 0 where
  pub id_counter : ℕ

-- `NewEngine`
abbrev pub new_engine : Engine
new_engine = record { id_counter = 0 }

-- `Engine.Begin`
unfoldable pub begin : Engine → Engine × Txn
begin e =
    let id = inc64 e.id_counter in
    (
      record { id_counter = id },
      record {
        id = Text.◌++◌ "txn-" (Text.decimal id);
        read_set = [];
        write_set = [];
        write_buffer = [];
        read_versions = [];
        aborted = false;
        committed = false;
      },
    )

-- `checkActive`
unfoldable pub check_active : Txn → Option TxnError
check_active txn =
    if txn.aborted then some txn_aborted else if txn.committed then some txn_committed else none

-- The first read of a key enters the read set, with version 0 if the store has no such key.
unfoldable pub note_read : Txn → String → ReadResult → Txn
note_read txn key result =
    let version = if result.found then result.version else 0 in
    elim (Dict.get txn.read_versions key) [
      | some _ ↦ txn
      | none ↦ record txn {
        read_set = txn.read_set ++ record { key = key; version_seen = version } ∷ [];
        read_versions = Dict.set txn.read_versions key version;
      }
    ]

-- `Engine.Write`
unfoldable pub write : Txn → String → String → Txn × Option TxnError
write txn key value = elim (check_active txn) [
  | some err ↦ (txn, some err)
  | none ↦ (
    record txn {
      write_set = txn.write_set ++ record { key = key; value = value } ∷ [];
      write_buffer = Dict.set txn.write_buffer key value;
    },
    none,
  )
]

-- `Engine.Abort`
unfoldable pub abort : Txn → Txn
abort txn = record txn { aborted = true; write_buffer = [] }

-- The request that `Commit` sends.
abbrev pub request : Txn → TxnRequest
request txn = record { txn_id = txn.id; read_set = txn.read_set; write_set = txn.write_set }

-- What `Commit` records in the transaction.
abbrev pub finish : Txn → TxnResult → Txn
finish txn result =
    if result.committed then record txn { committed = true } else record txn { aborted = true }

-- The result that `Commit` returns beside an error.
abbrev pub no_result : TxnResult
no_result = record { txn_id = ""; committed = false; commit_seq = 0; reason = "" }

module _ {S : Type 0} (st : Store S) where
  -- The read that goes to the store.
  unfoldable pub read_store : S → Txn → String → (S × Txn) × (String × Option TxnError)
  unfolding note_read
  read_store s txn key =
      let (s', result) = st.get s key in
      ((s', note_read txn key result), (if result.found then result.value else "", none))

  -- `Engine.Read`
  unfoldable pub read : S → Txn → String → (S × Txn) × (String × Option TxnError)
  read s txn key = elim (check_active txn) [
    | some err ↦ ((s, txn), ("", some err))
    | none ↦ elim (Dict.get txn.write_buffer key) [
      | some val ↦ ((s, txn), (val, none))
      | none ↦ read_store s txn key
    ]
  ]

module _ {C S : Type 0} (cert : Certifier C S) where
  -- `Engine.Commit`
  unfoldable pub commit : C → S → Txn → ((C × S) × Txn) × (TxnResult × Option TxnError)
  commit c s txn = elim (check_active txn) [
    | some err ↦ (((c, s), txn), (no_result, some err))
    | none ↦
        let (cs, result) = cert.submit_commit c s (request txn) in
        ((cs, finish txn result), (result, none))
  ]
