-- ===== src/World/Serial.antt =====
-- Serial execution: each committed transaction runs alone, and reads the current values.
use ccas.Common.{
  ℕ, String, ◌≡◌, refl, sym, ap, Bool, true, false, Option, List, [], ◌∷◌, ◌++◌, none, some, All,
  ◌==◌, if◌then◌else◌, ◌∙◌, subst,
}
use mathlib.Core.Path.{fun_ext}
use ccas.Types.{WriteEntry, CommitWrite}
use ccas.Storage.{Entry}
use ccas.Storage.Contract.{Table, put_write, overwrite, write_entry}
use ccas.Ccaas.Versions.{stamp}
use ccas.World.{Done}

abbrev pub value_of : Option Entry → String
value_of none = ""
value_of (some e) = e.value

-- The values of all keys. `Engine.Read` shows a missing key as the empty text.
abbrev pub Values : Type 0
Values = String → String

abbrev pub value_at : Table → Values
value_at t k = value_of (t k)

-- The values after a transaction has written.
unfoldable pub write_values : Values → List WriteEntry → Values
write_values v [] = v
write_values v (w ∷ ws) = write_values (λ j. if w.key == j then w.value else v j) ws

-- From the values `v` the transactions run one after the other, each reads the values that it
-- finds, and the values `v'` are left.
abbrev pub Serial : Values → List Done → Values → Type 0
Serial v [] v' = v ≡ v'
Serial v (d ∷ ds) v' = All (λ r. v r.0 ≡ r.1) d.reads × Serial (write_values v d.writes) ds v'

-- A transaction that runs last.
pub Serial-append :
    (v : Values) (ds : List Done) (v' : Values) (d : Done)
    → Serial v ds v'
    → All (λ r. v' r.0 ≡ r.1) d.reads
    → Serial v (ds ++ d ∷ []) (write_values v' d.writes)
Serial-append v [] v' d h a = (
  subst (λ (u : Values). All (λ r. u r.0 ≡ r.1) d.reads) (sym h) a,
  ap (λ (u : Values). write_values u d.writes) h,
)
Serial-append v (x ∷ ds) v' d h a = (h.0, Serial-append (write_values v x.writes) ds v' d h.1 a)

value_of-if :
    (b : Bool) (x y : Option Entry)
    → value_of (if b then x else y) ≡ (if b then value_of x else value_of y)
value_of-if true x y = refl
value_of-if false x y = refl

-- Overwriting the table writes the values.
pub value_at-overwrite :
    (t : Table) (n : ℕ) (ws : List WriteEntry)
    → value_at (overwrite t (stamp n ws)) ≡ write_values (value_at t) ws
unfolding overwrite stamp write_values
value_at-overwrite t n [] = refl
value_at-overwrite t n (w ∷ ws) =
    let cw : CommitWrite = record { key = w.key; value = w.value; new_version = n } in
    value_at-overwrite (put_write t cw) n ws
    ∙ ap (λ (v : Values). write_values v ws)
        (fun_ext λ j. value_of-if (w.key == j) (some (write_entry cw)) (t j))
