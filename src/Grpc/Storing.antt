-- ===== src/Grpc/Storing.antt =====
-- pkg/storage/grpc_client.go and grpc_server.go: a `Store` behind a connection.
use ccas.Common.{String, true, false, Option, none, some, [], map, ◌==◌, if◌then◌else◌}
use ccas.Dict
use ccas.Dict.{Dict}
use ccas.Types.{CommitWrite, CommitRecord, ReadResult}
use ccas.Storage.{Store}
use ccas.Grpc.{Transport, Reply, answer, failure, remote}
use ccas.Grpc.Messages.{
  GetResponse, PbCommitWrite, ApplyCommitRequest, ApplyCommitResponse, DumpStateEntry,
  DumpStateResponse,
}

abbrev pub encode_commit_write : CommitWrite → PbCommitWrite
encode_commit_write w = record { key = w.key; value = w.value; new_version = w.new_version }

abbrev pub decode_commit_write : PbCommitWrite → CommitWrite
decode_commit_write w = record { key = w.key; value = w.value; new_version = w.new_version }

unfoldable pub encode_record : CommitRecord → ApplyCommitRequest
encode_record written = record {
  commit_seq = written.commit_seq;
  txn_id = written.txn_id;
  writes = map encode_commit_write written.writes;
}

unfoldable pub decode_record : ApplyCommitRequest → CommitRecord
decode_record req = record {
  commit_seq = req.commit_seq;
  txn_id = req.txn_id;
  writes = map decode_commit_write req.writes;
}

unfoldable pub decode_get : Reply GetResponse → ReadResult
decode_get (answer resp) = record { value = resp.value; version = resp.version; found = resp.found }
decode_get (failure err) = record { value = ""; version = 0; found = false }

-- The text of the error; the empty text is no error.
unfoldable pub err_msg : Option String → String
err_msg none = ""
err_msg (some err) = err

unfoldable pub decode_apply : Reply ApplyCommitResponse → Option String
decode_apply (answer resp) = if resp.error == "" then none else some resp.error
decode_apply (failure err) = some err

unfoldable pub shown_entry : DumpStateEntry → ReadResult
shown_entry e = record { value = e.value; version = e.version; found = true }

unfoldable pub decode_dump : Reply DumpStateResponse → Dict ReadResult
unfolding shown_entry
decode_dump (answer resp) = Dict.copy_range shown_entry resp.entries []
decode_dump (failure err) = []

unfoldable pub dumped_entry : ReadResult → DumpStateEntry
dumped_entry r = record { value = r.value; version = r.version }

module _ {S : Type 0} (st : Store S) where
  -- `GRPCStorageServer.Get`
  unfoldable pub serve_get : S → String → S × GetResponse
  serve_get s key =
      let (s', r) = st.get s key in
      (s', record { value = r.value; version = r.version; found = r.found })

  -- `GRPCStorageServer.ApplyCommit`
  unfoldable pub serve_apply : S → ApplyCommitRequest → S × ApplyCommitResponse
  unfolding err_msg
  serve_apply s req =
      let (s', err) = st.apply_commit s (decode_record req) in (s', record { error = err_msg err })

  -- `GRPCStorageServer.LoadInitialData`
  unfoldable pub serve_load : S → Dict String → S × Unit {0}
  serve_load s d = (st.load_initial_data s d, tt)

  -- `GRPCStorageServer.DumpState`
  unfoldable pub serve_dump : S → Unit {0} → S × DumpStateResponse
  unfolding dumped_entry
  serve_dump s req =
      let (s', state) = st.dump_state s in
      (s', record { entries = Dict.copy_range dumped_entry state [] })

module _ {N S : Type 0} (t : Transport N) (st : Store S) where
  -- `GRPCStoreClient.Get`
  unfoldable pub get_remote : N × S → String → (N × S) × ReadResult
  get_remote (n, s) key =
      let (ns, reply) = remote t (serve_get st) n s key in (ns, decode_get reply)

  -- `GRPCStoreClient.ApplyCommit`
  unfoldable pub apply_remote : N × S → CommitRecord → (N × S) × Option String
  apply_remote (n, s) written =
      let (ns, reply) = remote t (serve_apply st) n s (encode_record written) in
      (ns, decode_apply reply)

  -- `GRPCStoreClient.LoadInitialData`, which logs an error.
  unfoldable pub load_remote : N × S → Dict String → N × S
  load_remote (n, s) d = (remote t (serve_load st) n s d).0

  -- `GRPCStoreClient.DumpState`
  unfoldable pub dump_remote : N × S → (N × S) × Dict ReadResult
  dump_remote (n, s) = let (ns, reply) = remote t (serve_dump st) n s tt in (ns, decode_dump reply)

  -- `*GRPCStoreClient` as a `Store`
  abbrev pub grpc_store : Store (N × S)
  grpc_store = record {
    get = get_remote;
    apply_commit = apply_remote;
    load_initial_data = load_remote;
    dump_state = dump_remote;
  }
