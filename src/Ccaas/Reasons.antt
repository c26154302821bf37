-- ===== src/Ccaas/Reasons.antt =====
-- The aborts that both certifiers report for a stale read.
use ccas.Common.{ℕ, String, false}
use ccas.Common.Text.{decimal, ◌++◌}
use ccas.Types.{ReadEntry, TxnResult}

-- The text of an abort for a read of a known key, and of one that the certifier has never seen.
pub stale_read : ReadEntry → ℕ → String
stale_read read current =
    "stale read on key "
    ++ (read.key
        ++ (": expected version "
            ++ (decimal read.version_seen ++ (", found " ++ decimal current))))

pub unseen_read : ReadEntry → String
unseen_read read =
    "stale read on key "
    ++ (read.key ++ (": expected version " ++ (decimal read.version_seen ++ ", found 0")))

-- A result that is no commit.
abbrev pub abort : String → String → TxnResult
abort txn_id reason = record { txn_id = txn_id; committed = false; commit_seq = 0; reason = reason }
