-- ===== src/Grpc/Messages.antt =====
-- proto/ccaspb: the messages of the two services, less the bookkeeping fields of protobuf.
use ccas.Common.{ℕ, String, Bool, List}
use ccas.Dict.{Dict}

-- certifier.proto
pub record PbReadEntry : Type 0 where
  pub key : String
  pub version_seen : ℕ

pub record PbWriteEntry : Type 0 where
  pub key : String
  pub value : String

pub record SubmitCommitRequest : Type 0 where
  pub txn_id : String
  pub read_set : List PbReadEntry
  pub write_set : List PbWriteEntry

pub record SubmitCommitResponse : Type 0 where
  pub txn_id : String
  pub committed : Bool
  pub commit_seq : ℕ
  pub reason : String

-- storage.proto
pub record GetResponse : Type 0 where
  pub value : String
  pub version : ℕ
  pub found : Bool

pub record PbCommitWrite : Type 0 where
  pub key : String
  pub value : String
  pub new_version : ℕ

pub record ApplyCommitRequest : Type 0 where
  pub commit_seq : ℕ
  pub txn_id : String
  pub writes : List PbCommitWrite

-- `error` is empty for nil.
pub record ApplyCommitResponse : Type 0 where
  pub error : String

pub record DumpStateEntry : Type 0 where
  pub value : String
  pub version : ℕ

pub record DumpStateResponse : Type 0 where
  pub entries : Dict DumpStateEntry
