-- ===== src/Rpc.antt =====
-- `RpcServer` and `RpcClient` of raft/rpc.rs, and the vote messages of coordination.rs. A connection
-- carries one request and one reply. Connecting succeeds within its timeout. What prost does, the
-- bytes of a generated message, is a parameter.
pub mod Exchange
pub mod Votes
use oxide_kv.Common.{ℕ, Bool, Option, none, some, List, ◌++◌}
use oxide_kv.Text.{Str}
use oxide_kv.Frame.{
  DispatchKind, raft, vote, IoResult, ok, unexpected_eof, invalid_data, invalid_input,
  write_envelope, read_envelope, read_envelope_discriminator, read_envelope_payload,
}
use oxide_kv.Raft.{RaftNode}
use oxide_kv.Raft.Election.{handle_request_vote, handle_pre_vote}
use oxide_kv.Raft.Append.{handle_append_entries}
use oxide_kv.Raft.Snapshots.{handle_install_snapshot}
use oxide_kv.Raft.Propose.{handle_join_cluster}
use oxide_kv.Raft.TxVote.{VoteRequest, VoteResponse, VoteReason, handle_tx_vote_request}
use oxide_kv.Wire.{RaftMessage, PbRaftMessage}
use oxide_kv.Wire.Encode.{encode_domain}
use oxide_kv.Wire.Decode.{decode_domain}

-- The generated messages of proto/coordination.proto.
pub record PbVoteRequest : Type 0 where
  pub term : ℕ
  pub tx_id : Str
  pub last_log_index : ℕ
  pub last_log_term : ℕ

pub record PbVoteResponse : Type 0 where
  pub term : ℕ
  pub vote_granted : Bool
  pub reason : VoteReason

abbrev pub encode_vote_request : VoteRequest → PbVoteRequest
encode_vote_request d = record {
  term = d.term;
  tx_id = d.tx_id;
  last_log_index = d.last_log_index;
  last_log_term = d.last_log_term;
}

abbrev pub decode_vote_request : PbVoteRequest → VoteRequest
decode_vote_request p = record {
  term = p.term;
  tx_id = p.tx_id;
  last_log_index = p.last_log_index;
  last_log_term = p.last_log_term;
}

abbrev pub encode_vote_response : VoteResponse → PbVoteResponse
encode_vote_response d = record { term = d.term; vote_granted = d.vote_granted; reason = d.reason }

abbrev pub decode_vote_response : PbVoteResponse → VoteResponse
decode_vote_response p = record { term = p.term; vote_granted = p.vote_granted; reason = p.reason }

-- The clocks that a handler reads: the node's, and the Unix time.
pub record Clocks : Type 0 where
  pub now : ℕ
  pub unix_now : ℕ

-- The handler of a request and its reply; any other message is dropped.
unfoldable pub answer : Clocks → RaftMessage → RaftNode → RaftNode × Option RaftMessage
answer c (RaftMessage.request_vote a) n =
    let (n', reply) = handle_request_vote c.now a n in (n', some (RaftMessage.vote_response reply))
answer c (RaftMessage.request_pre_vote a) n =
    let (n', reply) = handle_pre_vote c.now a n in (n', some (RaftMessage.pre_vote_response reply))
answer c (RaftMessage.append_entries a) n =
    let (n', reply) = handle_append_entries c.now c.unix_now a n in
    (n', some (RaftMessage.append_reply reply))
answer c (RaftMessage.install_snapshot a) n =
    let (n', reply) = handle_install_snapshot c.now a n in
    (n', some (RaftMessage.install_snapshot_reply reply))
answer c (RaftMessage.join_cluster addr) n =
    (n, some (RaftMessage.join_cluster_response (handle_join_cluster addr n)))
answer c _ n = (n, none)

-- How a connection ends at the server: a reply's bytes, a close with none, or an error.
pub data Served : Type 0 where
  replied : List ℕ → Served
  closed : Served
  failed : Served

-- What a caller gets.
pub data Called (A : Type 0) : Type 0 where
  reply : A → Called A
  no_reply : Called A
  wrong_kind : Called A
  call_failed : Called A

abbrev pub written : IoResult (List ℕ) → Served
written (ok bytes) = replied bytes
written _ = failed

-- How the bytes of a generated message are written and read.
pub record Codec (A : Type 0) : Type 0 where
  pub encode_to_vec : A → List ℕ
  pub decode : List ℕ → Option A

module _ (messages : Codec PbRaftMessage) (requests : Codec PbVoteRequest)
    (responses : Codec PbVoteResponse) (c : Clocks) where
  unfoldable pub handle_raft_rpc_inner : List ℕ → RaftNode → RaftNode × Served
  handle_raft_rpc_inner stream n = elim (read_envelope_payload stream) [
    | ok none ↦ (n, closed)
    | ok (some (req_buf, _)) ↦ elim (messages.decode req_buf) [
      | none ↦ (n, failed)
      | some req_pb ↦
          let (n', response) = answer c (decode_domain req_pb) n in
          elim response [
            | none ↦ (n', closed)
            | some m ↦
                (n', written (write_envelope raft (messages.encode_to_vec (encode_domain m))))
          ]
    ]
    | _ ↦ (n, failed)
  ]

  unfoldable pub handle_vote_rpc_inner : List ℕ → RaftNode → RaftNode × Served
  handle_vote_rpc_inner stream n = elim (read_envelope_payload stream) [
    | ok none ↦ (n, closed)
    | ok (some (req_buf, _)) ↦ elim (requests.decode req_buf) [
      | none ↦ (n, failed)
      | some req_pb ↦
          let (n', response) = handle_tx_vote_request c.unix_now (decode_vote_request req_pb) n in
          (
            n',
            written (write_envelope vote (responses.encode_to_vec (encode_vote_response response))),
          )
    ]
    | _ ↦ (n, failed)
  ]

  unfoldable pub dispatch_logic : List ℕ → RaftNode → RaftNode × Served
  dispatch_logic stream n = elim (read_envelope_discriminator stream) [
    | ok none ↦ (n, closed)
    | ok (some (raft, rest)) ↦ handle_raft_rpc_inner rest n
    | ok (some (vote, rest)) ↦ handle_vote_rpc_inner rest n
    | _ ↦ (n, failed)
  ]

  -- The bytes that come back: none when the server closes.
  abbrev pub sent_back : Served → List ℕ
  sent_back (replied bytes) = bytes
  sent_back _ = List.[]

  abbrev pub read_reply : List ℕ → Called RaftMessage
  read_reply stream = elim (read_envelope stream) [
    | ok none ↦ no_reply
    | ok (some (_, resp_buf, _)) ↦ elim (messages.decode resp_buf) [
      | none ↦ call_failed
      | some resp_pb ↦ reply (decode_domain resp_pb)
    ]
    | _ ↦ call_failed
  ]

  -- `call` against a server with this node.
  unfoldable pub call : RaftMessage → RaftNode → RaftNode × Called RaftMessage
  call msg n = elim (write_envelope raft (messages.encode_to_vec (encode_domain msg))) [
    | ok request ↦
        let (n', served) = dispatch_logic request n in (n', read_reply (sent_back served))
    | _ ↦ (n, call_failed)
  ]

  abbrev pub read_vote : List ℕ → Called VoteResponse
  read_vote stream = elim (read_envelope stream) [
    | ok none ↦ no_reply
    | ok (some (vote, resp_buf, _)) ↦ elim (responses.decode resp_buf) [
      | none ↦ call_failed
      | some resp_pb ↦ reply (decode_vote_response resp_pb)
    ]
    | ok (some (raft, _, _)) ↦ wrong_kind
    | _ ↦ call_failed
  ]

  unfoldable pub send_tx_vote_rpc : VoteRequest → RaftNode → RaftNode × Called VoteResponse
  send_tx_vote_rpc req n =
      elim (write_envelope vote (requests.encode_to_vec (encode_vote_request req))) [
        | ok request ↦
            let (n', served) = dispatch_logic request n in (n', read_vote (sent_back served))
        | _ ↦ (n, call_failed)
      ]
