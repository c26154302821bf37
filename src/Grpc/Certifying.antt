-- ===== src/Grpc/Certifying.antt =====
-- pkg/ccaas/grpc_client.go and grpc_server.go: a `Certifier` behind a connection.
use ccas.Common.{false, map}
use ccas.Types.{ReadEntry, WriteEntry, TxnRequest, TxnResult}
use ccas.Ccaas.{Certifier}
use ccas.Grpc.{Transport, Reply, answer, failure, remote}
use ccas.Grpc.Messages.{PbReadEntry, PbWriteEntry, SubmitCommitRequest, SubmitCommitResponse}

-- The entries, on their way out and in.
abbrev pub encode_read : ReadEntry → PbReadEntry
encode_read r = record { key = r.key; version_seen = r.version_seen }

abbrev pub decode_read : PbReadEntry → ReadEntry
decode_read r = record { key = r.key; version_seen = r.version_seen }

abbrev pub encode_write : WriteEntry → PbWriteEntry
encode_write w = record { key = w.key; value = w.value }

abbrev pub decode_write : PbWriteEntry → WriteEntry
decode_write w = record { key = w.key; value = w.value }

-- What the client makes of a request.
unfoldable pub encode_request : TxnRequest → SubmitCommitRequest
encode_request req = record {
  txn_id = req.txn_id;
  read_set = map encode_read req.read_set;
  write_set = map encode_write req.write_set;
}

-- What the server makes of the message.
unfoldable pub decode_request : SubmitCommitRequest → TxnRequest
decode_request req = record {
  txn_id = req.txn_id;
  read_set = map decode_read req.read_set;
  write_set = map decode_write req.write_set;
}

unfoldable pub encode_result : TxnResult → SubmitCommitResponse
encode_result result = record {
  txn_id = result.txn_id;
  committed = result.committed;
  commit_seq = result.commit_seq;
  reason = result.reason;
}

-- What the client returns: the response, or an abort with the text of the error.
unfoldable pub decode_reply : TxnRequest → Reply SubmitCommitResponse → TxnResult
decode_reply req (answer resp) = record {
  txn_id = resp.txn_id;
  committed = resp.committed;
  commit_seq = resp.commit_seq;
  reason = resp.reason;
}
decode_reply req (failure err) = record {
  txn_id = req.txn_id;
  committed = false;
  commit_seq = 0;
  reason = err;
}

module _ {C S : Type 0} (cert : Certifier C S) where
  -- `GRPCCertifierServer.SubmitCommit`
  unfoldable pub serve_submit : C × S → SubmitCommitRequest → (C × S) × SubmitCommitResponse
  unfolding encode_result
  serve_submit (c, s) req =
      let (cs, result) = cert.submit_commit c s (decode_request req) in (cs, encode_result result)

  -- `GRPCCertifierServer.SyncFromStorage`; the messages are empty.
  unfoldable pub serve_sync : C × S → Unit {0} → (C × S) × Unit {0}
  serve_sync (c, s) req = (cert.sync_from_storage c s, tt)

module _ {N C S : Type 0} (t : Transport N) (cert : Certifier C S) where
  -- `GRPCCertifierClient.SubmitCommit`
  unfoldable pub submit_remote : N × C → S → TxnRequest → ((N × C) × S) × TxnResult
  submit_remote (n, c) s req =
      let ((n', (c', s')), reply) = remote t (serve_submit cert) n (c, s) (encode_request req) in
      (((n', c'), s'), decode_reply req reply)

  -- `GRPCCertifierClient.SyncFromStorage`, which drops the error.
  unfoldable pub sync_remote : N × C → S → (N × C) × S
  sync_remote (n, c) s =
      let ((n', (c', s')), _) = remote t (serve_sync cert) n (c, s) tt in ((n', c'), s')

  -- `*GRPCCertifierClient` as a `Certifier`
  abbrev pub grpc_certifier : Certifier (N × C) S
  grpc_certifier = record { submit_commit = submit_remote; sync_from_storage = sync_remote }
