-- ===== src/Storage.antt =====
-- pkg/storage/storage.go: the interface `Store`, and what its clients rely on. An implementation
-- keeps a state of type `S`; each method returns the state that it leaves beside its result.
pub mod Contract
pub mod Mem
use ccas.Common.{ℕ, String, Option, List}
use ccas.Dict.{Dict}
use ccas.Types.{CommitRecord, ReadResult}

-- `type entry struct`
pub record Entry : Type 0 where
  pub value : String
  pub version : ℕ

-- `type Store interface`. A Go error is the text that it shows, and `none` is nil.
pub record Store (S : Type 0) : Type 0 where
  pub get : S → String → S × ReadResult
  pub apply_commit : S → CommitRecord → S × Option String
  pub load_initial_data : S → Dict String → S
  pub dump_state : S → S × Dict ReadResult
