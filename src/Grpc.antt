-- ===== src/Grpc.antt =====
-- Remote calls (pkg/ccaas/grpc_client.go, grpc_server.go and their counterparts in pkg/storage).
-- What gRPC does with a call is a parameter: the request may be lost, or the response after the
-- server has acted, and then the client sees an error.
pub mod Messages
pub mod Certifying
pub mod Storing
pub mod Delivered
pub mod Lossy
pub mod Laws
pub mod Roundtrip
use ccas.Common.{String, ◌≡◌}

-- What becomes of a call; the text is that of the error.
pub data Fate : Type 0 where
  delivered : Fate
  lost_request : String → Fate
  lost_response : String → Fate

-- The connection, with a state of its own.
pub record Transport (N : Type 0) : Type 0 where
  pub next : N → N × Fate

-- `resp, err := …`
pub data Reply (A : Type 0) : Type 0 where
  answer : A → Reply A
  failure : String → Reply A

-- A call under its fate, of a server with state `M`.
unfoldable pub under :
    {M Req Resp : Type 0} → Fate → (M → Req → M × Resp) → M → Req → M × Reply Resp
under delivered serve m req = let (m', resp) = serve m req in (m', answer resp)
under (lost_request err) serve m req = (m, failure err)
under (lost_response err) serve m req = ((serve m req).0, failure err)

module _ {N : Type 0} (t : Transport N) where
  unfoldable pub remote :
      {M Req Resp : Type 0} → (M → Req → M × Resp) → N → M → Req → (N × M) × Reply Resp
  unfolding under
  remote serve n m req =
      let (n', fate) = t.next n in let (m', reply) = under fate serve m req in ((n', m'), reply)

  -- A connection that loses nothing.
  abbrev pub Delivers : Type 0
  Delivers = (n : N) → (t.next n).1 ≡ delivered
