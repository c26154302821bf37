-- ===== src/Tests/Storing.antt =====
-- The store's operations at concrete inputs.
use ccas.Common.{◌≡◌, ◌≢◌, ◌⊎◌, none, [], ◌∷◌, All}
use ccas.Types.{CommitRecord}
use ccas.Storage.Contract.{IsFresh, overwrite}
use ccas.Storage.Mem.{apply_commit}
use ccas.Storage.Mem.Laws.{table, apply_commit-atomic}
use ccas.Tests.Sample.{two_keys}

-- The second write is not above the version of its key.
abbrev half_stale : CommitRecord
half_stale = record {
  commit_seq = 2;
  txn_id = "txn-1";
  writes =
      record { key = "x"; value = "7"; new_version = 2 }
      ∷ record { key = "y"; value = "23"; new_version = 1 }
      ∷ [];
}

apply_commit-atomic_example :
    (((apply_commit two_keys half_stale).1 ≡ none)
      × All (IsFresh (table two_keys)) half_stale.writes
      × (table (apply_commit two_keys half_stale).0 ≡ overwrite (table two_keys) half_stale.writes))
    ⊎ (((apply_commit two_keys half_stale).1 ≢ none)
        × (¬ All (IsFresh (table two_keys)) half_stale.writes)
        × ((apply_commit two_keys half_stale).0 ≡ two_keys))
apply_commit-atomic_example = apply_commit-atomic two_keys half_stale
