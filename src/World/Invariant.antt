-- ===== src/World/Invariant.antt =====
-- What holds of every client while others read and commit.
use mathlib.Core.List.{Memᴰ}
use ccas.Common.{
  ℕ, ◌≤◌, ◌<◌, String, ◌≡◌, refl, sym, ap, subst, ◌∙◌, ◌⊎◌, inl, inr, Option, none, some, List, [],
  ◌∷◌, arith, All, All-map,
}
use ccas.Dict
use ccas.Dict.{get-set}
use ccas.Types.{ReadEntry, WriteEntry, CommitWrite}
use ccas.Storage.{Entry}
use ccas.Storage.Contract.{Table, put_write, overwrite}
use ccas.Ccaas.Versions.{stamp, version_of, version_at, IsCurrent}
use ccas.Execution.{Txn}
use ccas.World.{Client}
use ccas.World.Serial.{value_of, value_at}

abbrev pub entry_for : String → ℕ → ReadEntry
entry_for k ver = record { key = k; version_seen = ver }

-- A value that was read is the current one as long as the version in the read set is.
abbrev pub Tracked : Table → Txn → String × String → Type 0
Tracked t txn r =
    (ver : ℕ) × Memᴰ (entry_for r.0 ver) txn.read_set
    × (ver ≤ version_at t r.0)
    × (version_at t r.0 ≡ ver → value_at t r.0 ≡ r.1)

pub record ClientOk (t : Table) (cl : Client) : Type 0 where
  pub noted :
      (k : String) (ver : ℕ)
      → Dict.get cl.txn.read_versions k ≡ some ver
      → Memᴰ (entry_for k ver) cl.txn.read_set × (ver ≤ version_at t k)
  pub tracked : All (Tracked t cl.txn) cl.seen

-- The record is about the reads alone.
pub ClientOk-same :
    (t : Table) (seen : List (String × String)) {txn txn' : Txn}
    → txn'.read_set ≡ txn.read_set
    → txn'.read_versions ≡ txn.read_versions
    → ClientOk t (record { txn = txn; seen = seen })
    → ClientOk t (record { txn = txn'; seen = seen })
ClientOk-same t seen {txn} {txn'} e f ok = record {
  noted = λ k ver g.
      subst (λ x. Memᴰ (entry_for k ver) x × (ver ≤ version_at t k)) (sym e)
        (ok.noted k ver (sym (ap (λ x. Dict.get x k) f) ∙ g));
  tracked =
      All-map seen (λ r h. (h.0, subst (Memᴰ (entry_for r.0 h.0)) (sym e) h.1, h.2, h.3))
        ok.tracked;
}

-- Between two tables every key is as it was or has a larger version.
abbrev pub Later : Table → Table → Type 0
Later t u = (k : String) → (u k ≡ t k) ⊎ (version_at t k < version_at u k)

Later-le : {t u : Table} → Later t u → (k : String) → version_at t k ≤ version_at u k
Later-le {t} {u} h k = elim (h k) [ inl e ↦ omega (arith, ap version_of e) | inr lt ↦ omega arith ]

Later-Tracked :
    (t u : Table) (txn : Txn)
    → Later t u
    → (r : String × String) → Tracked t txn r
    → Tracked u txn r
Later-Tracked t u txn h r (ver, m, le, same) = (
  ver,
  m,
  omega (arith, Later-le h r.0),
  elim (h r.0) [
    | inl e ↦ λ now. ap value_of e ∙ same (sym (ap version_of e) ∙ now)
    | inr lt ↦ λ now. absurd (omega arith)
  ],
)

-- A client's record survives what others commit.
pub Later-ClientOk : {t u : Table} {cl : Client} → Later t u → ClientOk t cl → ClientOk u cl
Later-ClientOk {t} {u} {cl} h ok = record {
  noted = λ k ver e. let (m, le) = ok.noted k ver e in (m, omega (arith, Later-le h k));
  tracked = All-map cl.seen (Later-Tracked t u cl.txn h) ok.tracked;
}

-- Stamped writes leave a key alone or give it their number.
overwrite_cases :
    (t : Table) (n : ℕ) (ws : List WriteEntry) (k : String)
    → (overwrite t (stamp n ws) k ≡ t k) ⊎ (version_at (overwrite t (stamp n ws)) k ≡ n)
unfolding overwrite stamp
overwrite_cases t n [] k = inl refl
overwrite_cases t n (w ∷ ws) k =
    let cw : CommitWrite = record { key = w.key; value = w.value; new_version = n } in
    ground (arith, overwrite_cases (put_write t cw) n ws k)

version_of-lt :
    (o : Option Entry) (n : ℕ)
    → ((e : Entry) → o ≡ some e → e.version < n)
    → 0 < n
    → version_of o < n
version_of-lt none n h pos = pos
version_of-lt (some e) n h pos = h e refl

pub overwrite-Later :
    (t : Table) (n : ℕ) (ws : List WriteEntry)
    → ((k : String) (e : Entry) → t k ≡ some e → e.version < n)
    → 0 < n
    → Later t (overwrite t (stamp n ws))
overwrite-Later t n ws below pos k = elim (overwrite_cases t n ws k) [
  | inl e ↦ inl e
  | inr e ↦ inr (omega (arith, version_of-lt (t k) n (below k) pos, e))
]

-- What was read at a current version is the current value.
pub Tracked-IsCurrent :
    (t : Table) (txn : Txn) (seen : List (String × String))
    → All (IsCurrent t) txn.read_set
    → All (Tracked t txn) seen
    → All (λ r. value_at t r.0 ≡ r.1) seen
Tracked-IsCurrent t txn seen cur = All-map seen (λ r h. h.3 (current_at txn.read_set cur h.1))
  where
    current_at :
        {r : ReadEntry} (rs : List ReadEntry) → All (IsCurrent t) rs → Memᴰ r rs → IsCurrent t r
    current_at [] a m = elim m [ ]
    current_at (x ∷ rs) a (Memᴰ.head e) = subst (IsCurrent t) (sym e) a.0
    current_at (x ∷ rs) a (Memᴰ.tail m) = current_at rs a.1 m
