-- ===== src/Grpc/Roundtrip.antt =====
-- What is sent is what arrives, message by message.
use ccas.Common.{String, ◌≡◌, ◌≢◌, refl, Option, some}
use ccas.Types.{TxnRequest, TxnResult, CommitRecord}
use ccas.Grpc.{answer}
use ccas.Grpc.Certifying.{encode_request, decode_request, encode_result, decode_reply}
use ccas.Grpc.Storing.{encode_record, decode_record, err_msg, decode_apply}
use ccas.Grpc.Delivered.{
  decode_request-encode_request, decode_record-encode_record, decode_apply-err_msg,
}

-- The servers read off a message the request and the commit record that the clients have put into
-- it, and the clients read off a response the result of a certifier and the error of a store, nil
-- included. An error is not the empty text.
pub messages_roundtrip :
    (req : TxnRequest) (result : TxnResult) (written : CommitRecord) (err : Option String)
    → err ≢ some ""
    → (decode_request (encode_request req) ≡ req)
      × (decode_reply req (answer (encode_result result)) ≡ result)
      × (decode_record (encode_record written) ≡ written)
      × (decode_apply (answer (record { error = err_msg err })) ≡ err)
unfolding decode_reply encode_result
messages_roundtrip req result written err shown = (
  decode_request-encode_request req,
  refl,
  decode_record-encode_record written,
  decode_apply-err_msg err shown,
)
