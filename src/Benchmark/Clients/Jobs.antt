-- ===== src/Benchmark/Clients/Jobs.antt =====
-- A round of the benchmark beside its transaction.
use mathlib.Core.List.{Memᴰ, append-nil}
use ccas.Common.{
  ℕ, ◌+◌, String, ◌≡◌, ◌⊎◌, refl, sym, ap, inl, inr, none, some, List, [], ◌∷◌, ◌++◌, arith, length,
  length-snoc, map, All, All-map, All-append, if◌then◌else◌, text_cases,
}
use ccas.Common.Text.{decimal}
use ccas.Common.Decimal.{atoi}
use ccas.Dict
use ccas.Dict.{Dict, get-set}
use ccas.Types.{WriteEntry}
use ccas.Storage.{Store}
use ccas.Execution
use ccas.Execution.{check_active}
use ccas.World.{Client, read_client, write_client}
use ccas.World.Settling.{done_of}
use ccas.Benchmark.Occurs.{NoTwice, IsKey}
use ccas.Benchmark.Increments.{IsRaised, IsIncrement, NoTwice-Apart}
use ccas.Benchmark.Clients.{Job, value_read}

abbrev pub keys_of : List WriteEntry → List String
keys_of ws = map (λ w. w.key) ws

-- Before the last read nothing has been written.
abbrev pub Unwritten : List String → Client → Type 0
Unwritten [] cl = Unit {0}
Unwritten (k ∷ ks) cl = cl.txn.write_buffer ≡ []

-- A key to be written has been read or will be.
abbrev pub Known : Dict String → List String → String → Type 0
Known values read_todo k = ((val : String) × (Dict.get values k ≡ some val)) ⊎ Memᴰ k read_todo

-- A round that is not over: the transaction is active, what `values` holds has been read, the
-- writes so far are increments, and together with those to come they are `count` different keys.
pub record Runs (n count : ℕ) (values : Dict String) (read_todo write_todo : List String)
    (cl : Client) : Type 0 where
  pub active : check_active cl.txn ≡ none
  pub noted : (k val : String) → Dict.get values k ≡ some val → Memᴰ (k, val) cl.seen
  pub raised : All (IsRaised n cl.seen) cl.txn.write_set
  pub once : NoTwice (keys_of cl.txn.write_set ++ write_todo)
  pub named : All (IsKey n) write_todo
  pub full : length cl.txn.write_set + length write_todo ≡ count
  pub known : All (Known values read_todo) write_todo
  pub unwritten : Unwritten read_todo cl

abbrev pub JobOk : ℕ → ℕ → Job → Client → Type 0
JobOk n count job cl =
    if job.over then Unit {0} else Runs n count job.values job.read_todo job.write_todo cl

pub Unwritten-empty : (ks : List String) (cl : Client) → cl.txn.write_buffer ≡ [] → Unwritten ks cl
Unwritten-empty [] cl e = tt
Unwritten-empty (k ∷ ks) cl e = e

noted-set :
    (values : Dict String) (key val : String) (seen : List (String × String))
    → ((k v : String) → Dict.get values k ≡ some v → Memᴰ (k, v) seen)
    → (k v : String) → Dict.get (Dict.set values key val) k ≡ some v
    → Memᴰ (k, v) ((key, val) ∷ seen)
noted-set values key val seen noted k v e = elim (text_cases key k) [
  | inl (is, same) ↦
      let now : val ≡ v = cc (e, get-set values key k val, same) in Memᴰ.head (cc (is, now))
  | inr (ne, differ) ↦ Memᴰ.tail (noted k v (cc (e, get-set values key k val, differ)))
]

Known-set :
    (values : Dict String) (key val : String) (keys : List String) (k : String)
    → Known values (key ∷ keys) k
    → Known (Dict.set values key val) keys k
Known-set values key val keys k h = elim (text_cases key k) [
  | inl (is, same) ↦ inl (val, cc (get-set values key k val, same))
  | inr (ne, differ) ↦ elim h [
    | inl (v, e) ↦ inl (v, cc (get-set values key k val, differ, e))
    | inr (Memᴰ.head e) ↦ absurd (ne (sym e))
    | inr (Memᴰ.tail m) ↦ inr m
  ]
]

module _ {S : Type 0} (st : Store S) (n count : ℕ) where
  read_client-active :
      (s : S) (cl : Client) (key : String)
      → check_active cl.txn ≡ none
      → cl.txn.write_buffer ≡ []
      → let cl' = (read_client st s key cl).1 in
        (check_active cl'.txn ≡ none)
        × (cl'.seen ≡ (key, (Execution.read st s cl.txn key).1.0) ∷ cl.seen)
        × (cl'.txn.write_set ≡ cl.txn.write_set)
        × (cl'.txn.write_buffer ≡ [])
  unfolding read_client Execution.read Execution.read_store Execution.note_read check_active
      Dict.get
  read_client-active s cl key active empty = ground arith

  pub read_client-Runs :
      (s : S) (cl : Client) (values : Dict String) (key : String) (keys ws : List String)
      → Runs n count values (key ∷ keys) ws cl
      → Runs n count
          (Dict.set values key (Execution.read st s cl.txn key).1.0)
          keys
          ws
          (read_client st s key cl).1
  read_client-Runs s cl values key keys ws r =
      let val = (Execution.read st s cl.txn key).1.0 in
      let (active, seen, same, empty) = read_client-active s cl key r.active r.unwritten in
      record {
        active = active;
        noted = λ k v e. rw seen (noted-set values key val cl.seen r.noted k v e);
        raised =
            rw (same, seen)
              (All-map cl.txn.write_set
                (λ w h. let (v, m, e, named) = h in (v, Memᴰ.tail m, e, named)) r.raised);
        once = rw same r.once;
        named = r.named;
        full = rw same r.full;
        known = All-map ws (λ k h. Known-set values key val keys k h) r.known;
        unwritten = Unwritten-empty keys _ empty;
      }

-- Once everything has been read, `values` has the key.
Known-read :
    (values : Dict String) (key : String)
    → Known values [] key
    → (val : String) × (Dict.get values key ≡ some val) × (value_read values key ≡ val)
Known-read values key (inl (val, e)) = (val, e, rw (e, value_read) refl)
Known-read values key (inr m) = elim m [ ]

write_client-active :
    (cl : Client) (key value : String)
    → check_active cl.txn ≡ none
    → let cl' = write_client key value cl in
      (check_active cl'.txn ≡ none)
      × (cl'.seen ≡ cl.seen)
      × (cl'.txn.write_set ≡ cl.txn.write_set ++ record { key = key; value = value } ∷ [])
unfolding write_client Execution.write check_active
write_client-active cl key value h = ground arith

keys-snoc :
    (ws : List WriteEntry) (w : WriteEntry) (ks : List String)
    → keys_of (ws ++ w ∷ []) ++ ks ≡ keys_of ws ++ w.key ∷ ks
keys-snoc [] w ks = refl
keys-snoc (x ∷ ws) w ks = ap (λ l. x.key ∷ l) (keys-snoc ws w ks)

pub write_client-Runs :
    (n count : ℕ) (cl : Client) (values : Dict String) (key : String) (ws : List String)
    → Runs n count values [] (key ∷ ws) cl
    → Runs n count values [] ws (write_client key (decimal (atoi (value_read values key) + 1)) cl)
write_client-Runs n count cl values key ws r =
    let (val, e, shown) = Known-read values key r.known.0 in
    let new = decimal (atoi (value_read values key) + 1) in
    let (active, seen, longer) = write_client-active cl key new r.active in
    let entry : WriteEntry = record { key = key; value = new } in
    record {
      active = active;
      noted = λ k v h. rw seen (r.noted k v h);
      raised =
          rw (longer, seen)
            (All-append (IsRaised n cl.seen) cl.txn.write_set (entry ∷ []) r.raised
              ((val, r.noted key val e, ap (λ v. decimal (atoi v + 1)) shown, r.named.0), tt));
      once = rw (longer, keys-snoc cl.txn.write_set entry ws) r.once;
      named = r.named.1;
      full =
          let more = length-snoc cl.txn.write_set entry in
          let all = r.full in rw longer (omega arith);
      known = r.known.1;
      unwritten = tt;
    }

-- What commits is an increment of each key that it writes.
pub Runs-IsIncrement :
    (n count : ℕ) (cl : Client) (values : Dict String)
    → Runs n count values [] [] cl
    → IsIncrement n count (done_of cl)
Runs-IsIncrement n count cl values r = record {
  raised = r.raised;
  apart = NoTwice-Apart _ (rw append-nil at r.once);
  full = let all = r.full in omega arith;
}
