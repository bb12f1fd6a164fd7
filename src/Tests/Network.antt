-- ===== src/Tests/Network.antt =====
-- Messages, frames, votes over a connection and the simulated network at concrete inputs.
use oxide_kv.Common.{
  ℕ, Bool, ◌==◌, ◌≡◌, refl, true, false, Option, none, some, List, [], ◌∷◌, ◌++◌, arith,
  if◌then◌else◌,
}
use oxide_kv.Text.{Str, cmp}
use oxide_kv.Map
use oxide_kv.Protocol.{Command}
use oxide_kv.Raft.{new_node}
use oxide_kv.Raft.Append.{handle_append_entries}
use oxide_kv.Raft.Append.Again.{Repeated, handle_append_entries-Repeated}
use oxide_kv.Raft.TxVote.{
  VoteRequest, VoteReason, granted_reason, stale_term, term_advance, leader_log_stale,
  tx_not_pending,
}
use oxide_kv.Raft.Apply.Frame.{Indexed}
use oxide_kv.Wire.{RaftMessage, PbRaftMessage}
use oxide_kv.Wire.Encode.{encode_domain}
use oxide_kv.Wire.Decode.{decode_domain}
use oxide_kv.Wire.RoundTrip.{received, received_message, decode_domain-encode_domain}
use oxide_kv.Frame.{
  DispatchKind, ok, write_envelope, read_envelope, read_envelope_discriminator,
  read_envelope_payload,
}
use oxide_kv.Frame.RoundTrip.{write_envelope-read_envelope}
use oxide_kv.Rpc.{PbVoteRequest, PbVoteResponse, Codec, Clocks, answer, send_tx_vote_rpc}
use oxide_kv.Rpc.Exchange.{IsFaithful}
use oxide_kv.Rpc.Votes.{vote_in_place, send_tx_vote_rpc-vote_in_place}
use oxide_kv.Sim.{InboundMessageBody}
use oxide_kv.Sim.Faults.{
  LinkId, ScheduleOutcome, duplicate_all, random_delay, partitioned_network, partition, heal,
  before_send, Rng,
}
use oxide_kv.Sim.Network.{Network, serving}
use oxide_kv.Sim.Transport.{send_raft, deliver_duplicate, dispatch_raft_message}
use oxide_kv.Sim.Delivery.{dispatched, dispatch_raft_message-answer, partition-before_send}
use oxide_kv.Sim.Delivery.Twice.{Delivered, send_raft-Delivered}
use oxide_kv.Tests.Store.{a, b, c, one}
use oxide_kv.Tests.Consensus.{started}
use oxide_kv.Tests.Log.{entry, behind, replace, replace-IsRequest}

program : Unit {0}
unfolding Map.get Map.insert cmp new_node received received_message write_envelope read_envelope
    before_send partition
program = tt

abbrev clocks : Clocks
clocks = record { now = 5; unix_now = 0 }

-- A request with an entry that the wire does not carry.
abbrev joining : RaftMessage
joining = RaftMessage.append_entries (record replace {
  entries = entry 2 2 (Command.add_node (record { node_id = a; addr = one })) ∷ [];
})

joining_received :
    received_message joining
    ≡ RaftMessage.append_entries (record replace { entries = entry 2 2 Command.compact ∷ [] })
unfolding program
joining_received = refl

decode_domain-encode_domain_example :
    decode_domain (encode_domain joining) ≡ received_message joining
decode_domain-encode_domain_example = decode_domain-encode_domain joining

three_bytes :
    write_envelope DispatchKind.raft (7 ∷ 8 ∷ 9 ∷ []) ≡ ok (1 ∷ 0 ∷ 0 ∷ 0 ∷ 3 ∷ 7 ∷ 8 ∷ 9 ∷ [])
unfolding program
three_bytes = refl

write_envelope-read_envelope_example :
    (bytes : List ℕ) × (write_envelope DispatchKind.raft (7 ∷ 8 ∷ 9 ∷ []) ≡ ok bytes)
    × (read_envelope (bytes ++ 4 ∷ []) ≡ ok (some (DispatchKind.raft, 7 ∷ 8 ∷ 9 ∷ [], 4 ∷ [])))
    × (tail : List ℕ) × (read_envelope_discriminator (bytes ++ 4 ∷ [])
        ≡ ok (some (DispatchKind.raft, tail)))
    × (read_envelope_payload tail ≡ ok (some (7 ∷ 8 ∷ 9 ∷ [], 4 ∷ [])))
write_envelope-read_envelope_example =
    write_envelope-read_envelope DispatchKind.raft (7 ∷ 8 ∷ 9 ∷ []) (4 ∷ []) (omega arith)

-- A way to write votes as bytes.
abbrev decode_request : List ℕ → Option PbVoteRequest
decode_request (t ∷ i ∷ j ∷ tx_id) =
    some (record { term = t; tx_id = tx_id; last_log_index = i; last_log_term = j })
decode_request _ = none

abbrev requests : Codec PbVoteRequest
requests = record {
  encode_to_vec = λ p. p.term ∷ p.last_log_index ∷ p.last_log_term ∷ p.tx_id;
  decode = decode_request;
}

requests-IsFaithful : IsFaithful requests
requests-IsFaithful = record { decode-encode = λ p. refl }

abbrev reason_byte : VoteReason → ℕ
reason_byte granted_reason = 0
reason_byte stale_term = 1
reason_byte term_advance = 2
reason_byte leader_log_stale = 3
reason_byte tx_not_pending = 4

abbrev byte_reason : ℕ → VoteReason
byte_reason r =
    if r == 0
    then granted_reason
    else (if r == 1
        then stale_term
        else (if r == 2
            then term_advance
            else (if r == 3 then leader_log_stale else tx_not_pending)))

abbrev encode_response : PbVoteResponse → List ℕ
encode_response p = p.term ∷ (if p.vote_granted then 1 else 0) ∷ reason_byte p.reason ∷ []

abbrev decode_response : List ℕ → Option PbVoteResponse
decode_response (t ∷ g ∷ r ∷ []) =
    some (record { term = t; vote_granted = g == 1; reason = byte_reason r })
decode_response _ = none

abbrev responses : Codec PbVoteResponse
responses = record { encode_to_vec = encode_response; decode = decode_response }

byte_reason-reason_byte : (r : VoteReason) → byte_reason (reason_byte r) ≡ r
byte_reason-reason_byte granted_reason = refl
byte_reason-reason_byte stale_term = refl
byte_reason-reason_byte term_advance = refl
byte_reason-reason_byte leader_log_stale = refl
byte_reason-reason_byte tx_not_pending = refl

granted_back : (g : Bool) → ((if g then 1 else 0) == 1) ≡ g
granted_back true = refl
granted_back false = refl

responses-IsFaithful : IsFaithful responses
responses-IsFaithful = record {
  decode-encode = λ p. cc (granted_back p.vote_granted, byte_reason-reason_byte p.reason);
}

-- No Raft message is read.
abbrev no_messages : Codec PbRaftMessage
no_messages = record { encode_to_vec = λ _. []; decode = λ _. none }

abbrev ask : VoteRequest
ask = record { term = 2; tx_id = one; last_log_index = 0; last_log_term = 0 }

send_tx_vote_rpc-vote_in_place_example :
    send_tx_vote_rpc no_messages requests responses clocks ask started
    ≡ vote_in_place no_messages requests responses clocks ask started
send_tx_vote_rpc-vote_in_place_example =
    send_tx_vote_rpc-vote_in_place no_messages requests responses clocks requests-IsFaithful
      responses-IsFaithful ask started

behind-Indexed : Indexed 0 behind.log
behind-Indexed = (refl, (refl, tt))

handle_append_entries-Repeated_example :
    Repeated 9 1 replace (handle_append_entries 5 0 replace behind)
handle_append_entries-Repeated_example =
    handle_append_entries-Repeated 5 0 9 1 replace behind replace-IsRequest behind-Indexed

dispatch_raft_message-answer_example :
    dispatch_raft_message clocks (RaftMessage.append_entries replace) behind
    ≡ dispatched (answer clocks (RaftMessage.append_entries replace) behind)
dispatch_raft_message-answer_example =
    dispatch_raft_message-answer clocks (RaftMessage.append_entries replace) behind
      (λ addr e. absurd (cc))

abbrev link : Str → Str → LinkId
link from to = record { from = from; to = to }

-- One direction is cut, the other is not.
partition-before_send_example :
    ((before_send
        (partition (link a b) (partitioned_network []))
        (link a b)
        (InboundMessageBody.vote ask)).1
      ≡ ScheduleOutcome.drop)
    × ((before_send
          (heal (partition (link a b) (partitioned_network [])))
          (link a b)
          (InboundMessageBody.vote ask)).1
        ≡ ScheduleOutcome.deliver)
unfolding program
partition-before_send_example =
    partition-before_send (link a b) (link a b) [] (InboundMessageBody.vote ask)

abbrev replicating : Network
replicating = record {
  peers = (b, 0) ∷ (c, 1) ∷ [];
  channels = serving b ∷ serving c ∷ [];
  rpc_timeout = 50;
  scheduler = duplicate_all 3;
  nodes = (b, started) ∷ (c, behind) ∷ [];
  elapsed = 0;
  duplicates = [];
}

send_raft-Delivered_example :
    Delivered clocks c replace behind replicating
      (send_raft clocks (λ x. x) b c (RaftMessage.append_entries replace) replicating).0
      (deliver_duplicate clocks
        (send_raft clocks (λ x. x) b c (RaftMessage.append_entries replace) replicating).0)
      (send_raft clocks (λ x. x) b c (RaftMessage.append_entries replace) replicating).1
unfolding program
send_raft-Delivered_example =
    send_raft-Delivered clocks clocks (λ x. x) b c c 3 1 replace replicating behind refl refl refl
      refl replace-IsRequest behind-Indexed

-- Every sample is below the probability, and the delay is longer than the timeout.
abbrev always : Rng
always = record { sample = λ _. 0; drawn = 0 }

abbrev slow : Network
slow = record replicating { scheduler = random_delay always 1 80 }
