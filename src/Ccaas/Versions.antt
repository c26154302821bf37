-- ===== src/Ccaas/Versions.antt =====
-- The version map that both certifiers keep, in lockstep with the store.
use mathlib.Core.Option
use ccas.Common.{
  ℕ, ◌≤◌, ◌<◌, String, ◌≡◌, refl, Option, none, some, List, [], ◌∷◌, arith, All, ltb, if◌then◌else◌,
}
use ccas.Dict
use ccas.Dict.{Dict, get-set, get_head, get-tail}
use ccas.Types.{ReadEntry, WriteEntry, CommitWrite, ReadResult}
use ccas.Storage.{Entry}
use ccas.Storage.Contract.{Table, found_entry, IsFresh, put_write, overwrite}

-- The loop over `DumpState` in the constructors and in `SyncFromStorage`: each key's version, and
-- the largest.
unfoldable pub scan_versions : Dict ReadResult → Dict ℕ × ℕ
scan_versions [] = ([], 0)
scan_versions ((key, result) ∷ state) =
    let (latest, max_version) = scan_versions state in
    (
      Dict.set latest key result.version,
      if ltb max_version result.version then result.version else max_version,
    )

-- The loop that fills `record.Writes`: every write gets the commit's sequence number.
unfoldable pub stamp : ℕ → List WriteEntry → List CommitWrite
stamp seq [] = []
stamp seq (w ∷ ws) = record { key = w.key; value = w.value; new_version = seq } ∷ stamp seq ws

-- The loop `c.latestVersion[write.Key] = commitSeq`.
unfoldable pub advance : Dict ℕ → ℕ → List WriteEntry → Dict ℕ
advance latest seq [] = latest
advance latest seq (w ∷ ws) = advance (Dict.set latest w.key seq) seq ws

abbrev pub version_of : Option Entry → ℕ
version_of none = 0
version_of (some e) = e.version

-- The version that a transaction sees at a key; a missing key shows 0.
abbrev pub version_at : Table → String → ℕ
version_at t k = version_of (t k)

-- A read is current if the table still has the version that was seen.
abbrev pub IsCurrent : Table → ReadEntry → Type 0
IsCurrent t r = version_at t r.key ≡ r.version_seen

-- The version map agrees with the store at every key, and no version is 0 or above the counter.
pub record Coupled (latest : Dict ℕ) (seq : ℕ) (t : Table) : Type 0 where
  pub agrees : (k : String) → Dict.get latest k ≡ Option.map (λ e. e.version) (t k)
  pub bounded : (k : String) (e : Entry) → t k ≡ some e → e.version ≤ seq
  pub positive : (k : String) (e : Entry) → t k ≡ some e → 0 < e.version

pub Coupled-mono : {l : Dict ℕ} {m n : ℕ} {t : Table} → m ≤ n → Coupled l m t → Coupled l n t
Coupled-mono {m} {n} le c = record {
  agrees = c.agrees;
  bounded = λ k e p. omega (arith, c.bounded k e p);
  positive = c.positive;
}

Coupled-put :
    {l : Dict ℕ} {n : ℕ} {t : Table} (w : CommitWrite)
    → 0 < n
    → w.new_version ≡ n
    → Coupled l n t
    → Coupled (Dict.set l w.key n) n (put_write t w)
Coupled-put {l} {n} {t} w pos v c = record {
  agrees = λ k. ground (arith, get-set l w.key k n, c.agrees k);
  bounded = λ k e p. ground (arith, c.bounded k e);
  positive = λ k e p. ground (arith, c.positive k e);
}

-- Writing the stamped entries to the map and to the table keeps them in lockstep.
pub Coupled-advance :
    (l : Dict ℕ) {n : ℕ} (t : Table) (ws : List WriteEntry)
    → 0 < n
    → Coupled l n t
    → Coupled (advance l n ws) n (overwrite t (stamp n ws))
unfolding advance overwrite stamp
Coupled-advance l t [] pos c = c
Coupled-advance l {n} t (w ∷ ws) pos c =
    let cw : CommitWrite = record { key = w.key; value = w.value; new_version = n } in
    Coupled-advance (Dict.set l w.key n) (put_write t cw) ws pos (Coupled-put cw pos refl c)

-- A sequence number above every version passes the check of the store.
pub stamp-IsFresh :
    (n : ℕ) (t : Table) (ws : List WriteEntry)
    → ((k : String) (e : Entry) → t k ≡ some e → e.version < n)
    → All (IsFresh t) (stamp n ws)
unfolding stamp
stamp-IsFresh n t [] h = tt
stamp-IsFresh n t (w ∷ ws) h = (h w.key, stamp-IsFresh n t ws h)

get-scan_versions :
    (m : Dict ReadResult) (k : String)
    → Dict.get (scan_versions m).0 k ≡ Option.map (λ r. r.version) (Dict.get m k)
unfolding scan_versions Dict.get
get-scan_versions [] k = refl
get-scan_versions ((j, r) ∷ m) k =
    ground (arith, get-set (scan_versions m).0 j k r.version, get-scan_versions m k)

le-scan_versions :
    (m : Dict ReadResult) (k : String) (r : ReadResult)
    → Dict.get m k ≡ some r
    → r.version ≤ (scan_versions m).1
unfolding scan_versions Dict.get
le-scan_versions [] k r e = absurd (cc)
le-scan_versions ((j, x) ∷ m) k r e = ground (arith, le-scan_versions m k r)

-- No more than the largest version that the dump shows.
pub scan_versions-le :
    (m : Dict ReadResult) (n : ℕ)
    → Dict.Distinct m
    → ((k : String) (r : ReadResult) → Dict.get m k ≡ some r → r.version ≤ n)
    → (scan_versions m).1 ≤ n
unfolding scan_versions Dict.get
scan_versions-le [] n d h = omega arith
scan_versions-le ((j, x) ∷ m) n d h = ground (
  arith,
  h j x (get_head j x m),
  scan_versions-le m n d.1 (λ k r e. h k r (get-tail j k x r m d e)),
)

-- A dumped entry has the version of the table.
pub dumped-le :
    (o : Option Entry) (r : ReadResult) (n : ℕ)
    → ((e : Entry) → o ≡ some e → e.version ≤ n)
    → Option.map found_entry o ≡ some r
    → r.version ≤ n
dumped-le none r n h e = absurd (cc)
dumped-le (some x) r n h e = ground (arith, h x refl)

-- A scan of a dump of the table gives a map in lockstep with it.
pub scan_versions-Coupled :
    (m : Dict ReadResult) (t : Table) (n : ℕ)
    → ((k : String) → Dict.get m k ≡ Option.map found_entry (t k))
    → ((k : String) (e : Entry) → t k ≡ some e → 0 < e.version)
    → (scan_versions m).1 ≤ n
    → Coupled (scan_versions m).0 n t
scan_versions-Coupled m t n h pos le = record {
  agrees = λ k. ground (arith, get-scan_versions m k, h k);
  bounded = λ k e p. ground (arith, h k, le-scan_versions m k (found_entry e));
  positive = pos;
}
