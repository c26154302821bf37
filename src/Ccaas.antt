-- ===== src/Ccaas.antt =====
-- pkg/ccaas/ccaas.go: the interface `Certifier`. A certifier keeps a state of type `C` beside the
-- state `S` of the store that it writes to.
pub mod Reasons
pub mod Outcome
pub mod Versions
pub mod Immediate
pub mod Epoch
pub mod Refused
use ccas.Types.{TxnRequest, TxnResult}

pub record Certifier (C S : Type 0) : Type 0 where
  pub submit_commit : C → S → TxnRequest → (C × S) × TxnResult
  pub sync_from_storage : C → S → C × S
