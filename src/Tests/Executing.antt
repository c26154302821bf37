-- ===== src/Tests/Executing.antt =====
-- The engine's methods at concrete inputs.
use ccas.Common.{refl, [], ◌∷◌, arith, false}
use ccas.Dict
use ccas.Storage.Mem.{mem_store}
use ccas.Ccaas.Immediate.{immediate_certifier}
use ccas.Execution.{Txn, begin, read, write, commit, abort, new_engine}
use ccas.Execution.Tidy.{IsTidy, version_noted, last_write, methods-IsTidy}
use ccas.Tests.Sample.{two_keys, fresh_cert}

-- A transaction that has read "x" and written it.
abbrev started : Txn
started = record {
  id = "txn-1";
  read_set = record { key = "x"; version_seen = 1 } ∷ [];
  write_set = record { key = "x"; value = "11" } ∷ [];
  write_buffer = ("x", "11") ∷ [];
  read_versions = ("x", 1) ∷ [];
  aborted = false;
  committed = false;
}

started-IsTidy : IsTidy started
unfolding Dict.get version_noted last_write
started-IsTidy = record { noted = λ k. refl; once = (refl, tt); buffered = λ k live. ground arith }

methods-IsTidy_example :
    IsTidy (begin new_engine).1
    × IsTidy (read mem_store two_keys started "y").0.1
    × IsTidy (write started "y" "9").0
    × IsTidy (commit (immediate_certifier mem_store) fresh_cert two_keys started).0.1
    × IsTidy (abort started)
methods-IsTidy_example =
    methods-IsTidy mem_store (immediate_certifier mem_store) new_engine fresh_cert two_keys started
      "y" "9" started-IsTidy
