-- ===== src/World/Numbers.antt =====
-- The numbers that the commits take, and the versions in the store.
use ccas.Common.{◌+◌, ◌≡◌, length}
use ccas.Storage.{Store}
use ccas.Storage.Contract.{StoreLaws}
use ccas.Ccaas.{Certifier}
use ccas.Ccaas.Outcome.{CertifierLaws}
use ccas.Execution
use ccas.World.{World}

module _ {C S : Type 0} (st : Store S) (laws : StoreLaws st) (cert : Certifier C S)
    (decisions : CertifierLaws cert laws.table) where
  open laws use {table}
  open decisions use {InStep, counter}

  -- As many numbers are taken as transactions commit.
  abbrev Takes : World C S → World C S → Type 0
  Takes w w' = counter w'.cert + length w.history ≡ counter w.cert + length w'.history
