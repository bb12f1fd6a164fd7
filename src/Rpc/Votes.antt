-- ===== src/Rpc/Votes.antt =====
-- A remote transaction vote against the participant's handler, raft/rpc.rs and coordination.rs.
use oxide_kv.Common.{
  ℕ, ◌≡◌, false, List, ◌++◌, length, ltb, arith, Bool-cases, inl, inr, if◌then◌else◌,
}
use oxide_kv.Frame.{vote, max_frame_bytes, write_envelope, read_envelope, to_be_bytes}
use oxide_kv.Frame.RoundTrip.{frame, write_envelope-frame, read_envelope_discriminator-frame}
use oxide_kv.Raft.{RaftNode}
use oxide_kv.Raft.TxVote.{VoteRequest, VoteResponse, handle_tx_vote_request}
use oxide_kv.Wire.{PbRaftMessage}
use oxide_kv.Rpc.{
  PbVoteRequest, PbVoteResponse, encode_vote_request, encode_vote_response, Clocks, Called,
  call_failed, Codec, handle_vote_rpc_inner, dispatch_logic, send_tx_vote_rpc, written,
}
use oxide_kv.Rpc.Exchange.{
  IsFaithful, carried, read_only_payload, read_only_envelope, write_envelope_large,
}

module _ (messages : Codec PbRaftMessage) (requests : Codec PbVoteRequest)
    (responses : Codec PbVoteResponse) (c : Clocks) where
  abbrev pub request_size : VoteRequest → ℕ
  request_size req = length (requests.encode_to_vec (encode_vote_request req))

  abbrev pub response_size : VoteResponse → ℕ
  response_size r = length (responses.encode_to_vec (encode_vote_response r))

  abbrev pub vote_in_place : VoteRequest → RaftNode → RaftNode × Called VoteResponse
  vote_in_place req n =
      if ltb max_frame_bytes (request_size req)
      then (n, call_failed)
      else carried (response_size (handle_tx_vote_request c.unix_now req n).1)
          (handle_tx_vote_request c.unix_now req n).0 (handle_tx_vote_request c.unix_now req n).1

  module _ (ask : IsFaithful requests) (tell : IsFaithful responses) where
    dispatch_vote :
        (req : VoteRequest) (n : RaftNode)
        → ltb max_frame_bytes (request_size req) ≡ false
        → dispatch_logic messages requests responses c
            (frame vote (requests.encode_to_vec (encode_vote_request req)))
            n
          ≡ (
            (handle_tx_vote_request c.unix_now req n).0,
            written (
                write_envelope vote (
                  responses.encode_to_vec
                    (encode_vote_response (handle_tx_vote_request c.unix_now req n).1))),
          )
    unfolding dispatch_logic handle_vote_rpc_inner
    dispatch_vote req n h =
        let payload : List ℕ = requests.encode_to_vec (encode_vote_request req) in
        ground (
          arith,
          read_envelope_discriminator-frame vote (to_be_bytes (length payload) ++ payload),
          read_only_payload payload,
          ask.decode-encode (encode_vote_request req),
        )

    -- A vote over a connection is the participant's handler run in place; a request over 16 MiB
    -- fails and asks nobody, and a reply over 16 MiB is lost after the vote is recorded.
    pub send_tx_vote_rpc-vote_in_place :
        (req : VoteRequest) (n : RaftNode)
        → send_tx_vote_rpc messages requests responses c req n ≡ vote_in_place req n
    unfolding send_tx_vote_rpc read_envelope
    send_tx_vote_rpc-vote_in_place req n =
        let payload : List ℕ = requests.encode_to_vec (encode_vote_request req) in
        let r : VoteResponse = (handle_tx_vote_request c.unix_now req n).1 in
        let bytes : List ℕ = responses.encode_to_vec (encode_vote_response r) in
        elim (Bool-cases (ltb max_frame_bytes (request_size req))) [
          | inl large ↦ ground (arith, write_envelope_large vote payload)
          | inr small ↦ elim (Bool-cases (ltb max_frame_bytes (response_size r))) [
            | inl over ↦ ground (
              arith,
              write_envelope-frame vote payload,
              dispatch_vote req n,
              write_envelope_large vote bytes,
            )
            | inr fits ↦ ground (
              arith,
              write_envelope-frame vote payload,
              dispatch_vote req n,
              write_envelope-frame vote bytes,
              read_only_envelope vote bytes,
              tell.decode-encode (encode_vote_response r),
            )
          ]
        ]
