-- ===== src/Ccaas/Epoch/Syncing.antt =====
-- `NewEpochCertifier` and `EpochCertifier.SyncFromStorage` read the store as their counterparts in
-- `ImmediateCertifier` do.
use ccas.Common.{ℕ, ◌<◌, ◌≤◌, String, ◌≡◌, refl, some}
use ccas.Storage.{Entry, Store}
use ccas.Storage.Contract.{StoreLaws}
use ccas.Ccaas.Versions.{Coupled}
use ccas.Ccaas.Immediate
use ccas.Ccaas.Immediate.{ImmediateCertifier}
use ccas.Ccaas.Immediate.Laws
use ccas.Ccaas.Immediate.Laws.{
  new_immediate_certifier-InStep, new_immediate_certifier-le, sync_from_storage-keeps,
}
use ccas.Ccaas.Epoch.{EpochCertifier, new_epoch_certifier, sync_from_storage}

-- What the two kinds of certifier have in common.
abbrev core : EpochCertifier → ImmediateCertifier
core c = record { latest_version = c.latest_version; commit_seq = c.commit_seq }

module _ {S : Type 0} (st : Store S) where
  sync_from_storage-core :
      (c : EpochCertifier) (s : S)
      → let r = sync_from_storage st c s in
        let i = Immediate.sync_from_storage st (core c) s in
        (core r.0 ≡ i.0) × (r.1 ≡ i.1) × (r.0.current_batch ≡ c.current_batch)
  unfolding sync_from_storage Immediate.sync_from_storage
  sync_from_storage-core c s = (refl, refl, refl)

module _ {S : Type 0} (st : Store S) (laws : StoreLaws st) where
  open laws use {table}

  -- The map and the counter are in lockstep with the store.
  abbrev pub InStep : EpochCertifier → S → Type 0
  InStep c s = Coupled c.latest_version c.commit_seq (table s)

  -- The constructor reads a state in lockstep off any store whose versions are positive.
  pub new_epoch_certifier-InStep :
      (s : S)
      → ((k : String) (e : Entry) → table s k ≡ some e → 0 < e.version)
      → let r = new_epoch_certifier st s in InStep r.0 r.1 × (table r.1 ≡ table s)
  unfolding new_epoch_certifier Immediate.new_immediate_certifier
  new_epoch_certifier-InStep s pos = new_immediate_certifier-InStep st laws s pos

  -- The counter starts no higher than the highest version.
  pub new_epoch_certifier-le :
      (s : S) (n : ℕ)
      → ((k : String) (e : Entry) → table s k ≡ some e → e.version ≤ n)
      → (new_epoch_certifier st s).0.commit_seq ≤ n
  unfolding new_epoch_certifier Immediate.new_immediate_certifier
  new_epoch_certifier-le s n h = new_immediate_certifier-le st laws s n h

  -- `SyncFromStorage` reads a state in lockstep off any store whose versions are positive.
  pub sync_from_storage-InStep :
      (c : EpochCertifier) (s : S)
      → ((k : String) (e : Entry) → table s k ≡ some e → 0 < e.version)
      → let r = sync_from_storage st c s in
        InStep r.0 r.1 × (table r.1 ≡ table s) × (r.0.current_batch ≡ c.current_batch)
  unfolding sync_from_storage Immediate.sync_from_storage
  sync_from_storage-InStep c s pos =
      let (step, _, same) = Laws.sync_from_storage-InStep st laws (core c) s pos in
      (step, same, refl)

  pub sync_from_storage-le :
      (c : EpochCertifier) (s : S) (n : ℕ)
      → c.commit_seq ≤ n
      → ((k : String) (e : Entry) → table s k ≡ some e → e.version ≤ n)
      → (sync_from_storage st c s).0.commit_seq ≤ n
  unfolding sync_from_storage Immediate.sync_from_storage
  sync_from_storage-le c s n low h = Laws.sync_from_storage-le st laws (core c) s n low h

  -- In lockstep already, `SyncFromStorage` changes neither the counter nor the store nor the batch.
  pub sync_from_storage-stays :
      (c : EpochCertifier) (s : S)
      → InStep c s
      → let r = sync_from_storage st c s in
        InStep r.0 r.1
        × (r.0.commit_seq ≡ c.commit_seq)
        × (table r.1 ≡ table s)
        × (r.0.current_batch ≡ c.current_batch)
  unfolding sync_from_storage Immediate.sync_from_storage
  sync_from_storage-stays c s h =
      let (step, same_seq, same) = sync_from_storage-keeps st laws (core c) s h in
      (step, same_seq, same, refl)
