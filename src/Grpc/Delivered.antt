-- ===== src/Grpc/Delivered.antt =====
-- Over a connection that loses nothing, the remote certifier and store are the ones behind it.
use ccas.Common.{String, ◌≡◌, ◌≢◌, refl, Option, none, some, List, [], ◌∷◌, map, arith, eq_iff}
use ccas.Dict
use ccas.Dict.{Dict, get-copy_range, copy_range-Distinct}
use ccas.Types.{TxnRequest, CommitRecord}
use ccas.Storage.{Store}
use ccas.Ccaas.{Certifier}
use ccas.Grpc.{Transport, delivered, answer, under, remote}
use ccas.Grpc.Certifying.{
  encode_read, decode_read, encode_write, decode_write, encode_request, decode_request,
  encode_result, decode_reply, serve_submit, serve_sync, submit_remote, sync_remote,
}
use ccas.Grpc.Storing.{
  encode_commit_write, decode_commit_write, encode_record, decode_record, decode_get, err_msg,
  decode_apply, shown_entry, dumped_entry, decode_dump, serve_get, serve_apply, serve_load,
  serve_dump, get_remote, apply_remote, load_remote, dump_remote,
}

map_inverse {ℓ κ} :
    {A : Type ℓ} {B : Type κ} (f : B → A) (g : A → B) (xs : List A)
    → ((x : A) → f (g x) ≡ x)
    → map f (map g xs) ≡ xs
map_inverse f g [] h = refl
map_inverse f g (x ∷ xs) h = cc (h x, map_inverse f g xs h)

-- A request arrives as it was sent.
pub decode_request-encode_request : (req : TxnRequest) → decode_request (encode_request req) ≡ req
unfolding decode_request encode_request
decode_request-encode_request req = λ i. record {
  txn_id = req.txn_id;
  read_set = map_inverse decode_read encode_read req.read_set (λ r. refl) i;
  write_set = map_inverse decode_write encode_write req.write_set (λ w. refl) i;
}

-- So does a commit record.
pub decode_record-encode_record : (r : CommitRecord) → decode_record (encode_record r) ≡ r
unfolding decode_record encode_record
decode_record-encode_record r = λ i. record {
  commit_seq = r.commit_seq;
  txn_id = r.txn_id;
  writes = map_inverse decode_commit_write encode_commit_write r.writes (λ w. refl) i;
}

module _ {N C S : Type 0} (t : Transport N) (cert : Certifier C S) where
  -- If the connection delivers the call and its response, the remote certifier decides what the one
  -- behind the connection decides, and leaves the same state.
  pub submit_remote-delivered :
      (n : N) (c : C) (s : S) (req : TxnRequest)
      → (t.next n).1 ≡ delivered
      → let d = cert.submit_commit c s req in
        submit_remote t cert (n, c) s req ≡ ((((t.next n).0, d.0.0), d.0.1), d.1)
  unfolding submit_remote remote under serve_submit decode_reply encode_result
  submit_remote-delivered n c s req h = rw (h, decode_request-encode_request) refl

  pub sync_remote-delivered :
      (n : N) (c : C) (s : S)
      → (t.next n).1 ≡ delivered
      → let d = cert.sync_from_storage c s in
        sync_remote t cert (n, c) s ≡ (((t.next n).0, d.0), d.1)
  unfolding sync_remote remote under serve_sync
  sync_remote-delivered n c s h = rw (h) refl

-- No error of the store is the empty text, which the message cannot tell from nil.
abbrev pub ShowsErrors : {S : Type 0} → Store S → Type 0
ShowsErrors {S} st = (s : S) (r : CommitRecord) → (st.apply_commit s r).1 ≢ some ""

pub decode_apply-err_msg :
    (o : Option String) → o ≢ some "" → decode_apply (answer (record { error = err_msg o })) ≡ o
unfolding decode_apply err_msg
decode_apply-err_msg none h = refl
decode_apply-err_msg (some err) h = ground (arith, eq_iff err "", h)

module _ {N S : Type 0} (t : Transport N) (st : Store S) (n : N) (s : S)
    (h : (t.next n).1 ≡ delivered) where
  pub get_remote-delivered :
      (k : String) → let d = st.get s k in get_remote t st (n, s) k ≡ (((t.next n).0, d.0), d.1)
  unfolding get_remote remote under serve_get decode_get
  get_remote-delivered k = rw (h) refl

  pub apply_remote-delivered :
      (r : CommitRecord)
      → ShowsErrors st
      → let d = st.apply_commit s r in apply_remote t st (n, s) r ≡ (((t.next n).0, d.0), d.1)
  unfolding apply_remote remote under serve_apply
  apply_remote-delivered r shows =
      rw (h, decode_record-encode_record, decode_apply-err_msg (st.apply_commit s r).1 (shows s r))
        refl

  pub load_remote-delivered :
      (d : Dict String) → load_remote t st (n, s) d ≡ ((t.next n).0, st.load_initial_data s d)
  unfolding load_remote remote under serve_load
  load_remote-delivered d = rw (h) refl

  pub dump_remote-delivered :
      let d = st.dump_state s in
      dump_remote t st (n, s)
      ≡ (((t.next n).0, d.0), Dict.copy_range shown_entry (Dict.copy_range dumped_entry d.1 []) [])
  unfolding dump_remote remote under serve_dump decode_dump
  dump_remote-delivered = rw (h) refl
