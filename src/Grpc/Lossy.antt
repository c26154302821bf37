-- ===== src/Grpc/Lossy.antt =====
-- Over a connection that may lose requests and responses.
use ccas.Common.{String, ◌≡◌, ◌⊎◌, inl, inr, refl, true, false}
use ccas.Types.{TxnRequest, TxnResult}
use ccas.Storage.{Store}
use ccas.Ccaas.{Certifier}
use ccas.Ccaas.Reasons.{abort}
use ccas.Grpc.{Transport, Fate, delivered, lost_request, lost_response, under, remote}
use ccas.Grpc.Certifying.{encode_request, encode_result, decode_reply, serve_submit, submit_remote}
use ccas.Grpc.Storing.{decode_get, serve_get, get_remote}
use ccas.Grpc.Delivered.{decode_request-encode_request}

module _ {C S : Type 0} (cert : Certifier C S) (c : C) (s : S) (req : TxnRequest) where
  -- The call of `SubmitCommit` under one fate.
  abbrev submit_under : Fate → (C × S) × TxnResult
  submit_under fate =
      let (cs, reply) = under fate (serve_submit cert) (c, s) (encode_request req) in
      (cs, decode_reply req reply)

  -- What the client may see and what the server may have done.
  abbrev pub SubmitSeen : (C × S) × TxnResult → Type 0
  SubmitSeen r =
      let d = cert.submit_commit c s req in
      (r ≡ d)
      ⊎ ((r.1.committed ≡ false) × (r.1.txn_id ≡ req.txn_id) × ((r.0 ≡ (c, s)) ⊎ (r.0 ≡ d.0)))

  submit_under_cases : (fate : Fate) → SubmitSeen (submit_under fate)
  unfolding under serve_submit decode_reply encode_result
  submit_under_cases delivered = inl (rw decode_request-encode_request refl)
  submit_under_cases (lost_request err) = inr (refl, refl, inl refl)
  submit_under_cases (lost_response err) =
      inr (refl, refl, inr (rw decode_request-encode_request refl))

module _ {N C S : Type 0} (t : Transport N) (cert : Certifier C S) where
  -- Whatever the connection does, either the client sees the certifier's decision, or it sees an
  -- abort of its transaction; then the certifier has done nothing or has decided unseen. So a commit
  -- that a client sees is a commit of the certifier.
  submit_remote_cases :
      (n : N) (c : C) (s : S) (req : TxnRequest)
      → let r = submit_remote t cert (n, c) s req in SubmitSeen cert c s req ((r.0.0.1, r.0.1), r.1)
  unfolding submit_remote remote
  submit_remote_cases n c s req = submit_under_cases cert c s req (t.next n).1

  -- When the response of a commit is lost, the client is told that its transaction aborted, and the
  -- certifier and the store keep the commit.
  pub submit_remote-in_doubt :
      (n : N) (c : C) (s : S) (req : TxnRequest) (err : String)
      → (t.next n).1 ≡ lost_response err
      → (cert.submit_commit c s req).1.committed ≡ true
      → let r = submit_remote t cert (n, c) s req in
        (r.1 ≡ abort req.txn_id err) × ((r.0.0.1, r.0.1) ≡ (cert.submit_commit c s req).0)
  unfolding submit_remote remote under serve_submit decode_reply
  submit_remote-in_doubt n c s req err h committed =
      rw (h, decode_request-encode_request) (refl, refl)

module _ {N S : Type 0} (t : Transport N) (st : Store S) where
  -- A read over the connection shows what the store shows, or no such key.
  pub get_remote_cases :
      (n : N) (s : S) (key : String)
      → let r = get_remote t st (n, s) key in
        (r.1 ≡ (st.get s key).1) ⊎ (r.1 ≡ record { value = ""; version = 0; found = false })
  unfolding get_remote remote under serve_get decode_get
  get_remote_cases n s key = at_fate (t.next n).1
    where
      at_fate :
          (fate : Fate)
          → let r = decode_get (under fate (serve_get st) s key).1 in
            (r ≡ (st.get s key).1) ⊎ (r ≡ record { value = ""; version = 0; found = false })
      at_fate delivered = inl refl
      at_fate (lost_request err) = inr refl
      at_fate (lost_response err) = inr refl
