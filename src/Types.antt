-- ===== src/Types.antt =====
-- pkg/types/types.go
use ccas.Common.{ℕ, String, Bool, List}

pub record ReadEntry : Type 0 where
  pub key : String
  pub version_seen : ℕ

pub record WriteEntry : Type 0 where
  pub key : String
  pub value : String

pub record TxnRequest : Type 0 where
  pub txn_id : String
  pub read_set : List ReadEntry
  pub write_set : List WriteEntry

pub record CommitWrite : Type 0 where
  pub key : String
  pub value : String
  pub new_version : ℕ

pub record CommitRecord : Type 0 where
  pub commit_seq : ℕ
  pub txn_id : String
  pub writes : List CommitWrite

pub record TxnResult : Type 0 where
  pub txn_id : String
  pub committed : Bool
  pub commit_seq : ℕ
  pub reason : String

pub record ReadResult : Type 0 where
  pub value : String
  pub version : ℕ
  pub found : Bool
