-- ===== src/Sim/Transport.antt =====
-- `SimTransport` of raft/sim_transport.rs. A message that reaches a node whose serve
-- loop runs is handled and answered at once; the time that passes is that of the sleeps. What other
-- tasks do in a sleep is an argument.
use oxide_kv.Common.{
  ℕ, ◌+◌, Option, none, some, List, [], ◌∷◌, ◌++◌, length, get_elem?, ltb, if◌then◌else◌,
}
use oxide_kv.Text.{Str}
use oxide_kv.Map
use oxide_kv.Map.{Map}
use oxide_kv.Raft.{RaftNode}
use oxide_kv.Raft.Propose.{Result, ok, err}
use oxide_kv.Raft.Election.{handle_request_vote, handle_pre_vote}
use oxide_kv.Raft.Append.{handle_append_entries}
use oxide_kv.Raft.Snapshots.{handle_install_snapshot}
use oxide_kv.Raft.TxVote.{VoteRequest, VoteResponse, handle_tx_vote_request}
use oxide_kv.Wire.{RaftMessage}
use oxide_kv.Rpc.{Clocks}
use oxide_kv.Sim.{
  TransportError, unreachable, timeout, protocol, InboundMessageBody, raft, vote, vote_reply,
}
use oxide_kv.Sim.Faults.{ScheduleOutcome, deliver, delay, duplicate, before_send}
use oxide_kv.Sim.Network.{waiting, serving, dropped, Network, inbound_capacity, lookup, set_channel}

unfoldable pub dispatch_raft_message :
    Clocks → RaftMessage → RaftNode → RaftNode × Result TransportError RaftMessage
dispatch_raft_message c (RaftMessage.request_vote args) n =
    let (n', reply) = handle_request_vote c.now args n in (n', ok (RaftMessage.vote_response reply))
dispatch_raft_message c (RaftMessage.request_pre_vote args) n =
    let (n', reply) = handle_pre_vote c.now args n in (n', ok (RaftMessage.pre_vote_response reply))
dispatch_raft_message c (RaftMessage.append_entries args) n =
    let (n', reply) = handle_append_entries c.now c.unix_now args n in
    (n', ok (RaftMessage.append_reply reply))
dispatch_raft_message c (RaftMessage.install_snapshot args) n =
    let (n', reply) = handle_install_snapshot c.now args n in
    (n', ok (RaftMessage.install_snapshot_reply reply))
dispatch_raft_message c other n = (n, err protocol)

abbrev pub wrap : Result TransportError RaftMessage → Result TransportError InboundMessageBody
wrap (ok m) = ok (raft m)
wrap (err e) = err e

-- The body of the serve loop for one message.
unfoldable pub serve_one :
    Clocks → InboundMessageBody → RaftNode → RaftNode × Result TransportError InboundMessageBody
serve_one c (raft msg) n = let (n', result) = dispatch_raft_message c msg n in (n', wrap result)
serve_one c (vote req) n =
    let (n', reply) = handle_tx_vote_request c.unix_now req n in (n', ok (vote_reply reply))
serve_one c (vote_reply _) n = (n, err protocol)

-- `push_with_reply`; none where no reply ever comes.
unfoldable pub push_with_reply :
    Clocks
    → ℕ
    → InboundMessageBody
    → Network
    → Network × Option (Result TransportError InboundMessageBody)
push_with_reply c channel body net = elim (get_elem? net.channels channel) [
  | none ↦ (net, some (err unreachable))
  | some dropped ↦ (net, some (err unreachable))
  | some (waiting queue) ↦ (
    if ltb (length queue) inbound_capacity
        then record net {
          channels = set_channel channel (waiting (queue ++ body ∷ [])) net.channels;
        }
        else net,
    none,
  )
  | some (serving id) ↦ elim (Map.get id net.nodes) [
    | none ↦ (net, none)
    | some n ↦
        let (n', result) = serve_one c body n in
        (record net { nodes = Map.insert id n' net.nodes }, some result)
  ]
]

-- The time of a sleep, with what the other tasks do meanwhile.
abbrev pub sleep : (Network → Network) → ℕ → Network → Network
sleep meanwhile ms net = record (meanwhile net) { elapsed = net.elapsed + ms }

abbrev pub or_timeout :
    Network × Option (Result TransportError InboundMessageBody)
    → Network × Result TransportError InboundMessageBody
or_timeout (net, some r) = (net, r)
or_timeout (net, none) =
    (record net { elapsed = net.elapsed + net.rpc_timeout }, err (timeout net.rpc_timeout))

abbrev pub later_copy : ℕ → ℕ → InboundMessageBody → Network → Network
later_copy d channel body net = record net {
  duplicates = record { due = net.elapsed + d; channel = channel; body = body } ∷ net.duplicates;
}

-- What a send does with the scheduler's decision.
unfoldable pub transmit :
    Clocks
    → (Network → Network)
    → ScheduleOutcome
    → ℕ
    → InboundMessageBody
    → Network
    → Network × Result TransportError InboundMessageBody
unfolding push_with_reply
transmit c meanwhile ScheduleOutcome.drop channel body net =
    (sleep meanwhile net.rpc_timeout net, err (timeout net.rpc_timeout))
transmit c meanwhile (delay d) channel body net =
    or_timeout (push_with_reply c channel body (sleep meanwhile d net))
transmit c meanwhile (duplicate d) channel body net =
    or_timeout (push_with_reply c channel body (later_copy d channel body net))
transmit c meanwhile deliver channel body net = or_timeout (push_with_reply c channel body net)

-- What `send_raft` and `send_vote` share: the receiver, the scheduler, the transmission.
unfoldable pub exchange :
    Clocks
    → (Network → Network)
    → Str
    → Str
    → InboundMessageBody
    → Network
    → Network × Result TransportError InboundMessageBody
unfolding before_send transmit
exchange c meanwhile self_id to body net = elim (lookup to net) [
  | none ↦ (net, err unreachable)
  | some channel ↦
      let (scheduler, outcome) =
        before_send net.scheduler (record { from = self_id; to = to }) body in
      transmit c meanwhile outcome channel body (record net { scheduler = scheduler })
]

abbrev pub raft_reply : Result TransportError InboundMessageBody → Result TransportError RaftMessage
raft_reply (err e) = err e
raft_reply (ok (raft reply)) = ok reply
raft_reply (ok (vote _)) = err protocol
raft_reply (ok (vote_reply _)) = err protocol

unfoldable pub send_raft :
    Clocks
    → (Network → Network)
    → Str
    → Str
    → RaftMessage
    → Network
    → Network × Result TransportError RaftMessage
unfolding exchange
send_raft c meanwhile self_id to msg net =
    let (net', r) = exchange c meanwhile self_id to (raft msg) net in (net', raft_reply r)

abbrev pub vote_answer :
    Result TransportError InboundMessageBody → Result TransportError VoteResponse
vote_answer (err e) = err e
vote_answer (ok (vote_reply reply)) = ok reply
vote_answer (ok (vote _)) = err protocol
vote_answer (ok (raft _)) = err protocol

unfoldable pub send_vote :
    Clocks
    → (Network → Network)
    → Str
    → Str
    → VoteRequest
    → Network
    → Network × Result TransportError VoteResponse
unfolding exchange
send_vote c meanwhile self_id to req net =
    let (net', r) = exchange c meanwhile self_id to (vote req) net in (net', vote_answer r)

-- The first duplicate on its way arrives; the result is dropped.
unfoldable pub deliver_duplicate : Clocks → Network → Network
unfolding push_with_reply
deliver_duplicate c net = elim net.duplicates [
  | [] ↦ net
  | p ∷ rest ↦ (push_with_reply c p.channel p.body (record net { duplicates = rest })).0
]

-- The start of a serve loop: what is queued is handled in order.
unfoldable pub serve_queue : Clocks → List InboundMessageBody → RaftNode → RaftNode
unfolding serve_one
serve_queue c [] n = n
serve_queue c (body ∷ queue) n = serve_queue c queue (serve_one c body n).0

unfoldable pub serve : Clocks → Str → ℕ → Network → Network
unfolding serve_queue
serve c id channel net = elim (get_elem? net.channels channel) [
  | some (waiting queue) ↦ elim (Map.get id net.nodes) [
    | none ↦ net
    | some n ↦ record net {
      nodes = Map.insert id (serve_queue c queue n) net.nodes;
      channels = set_channel channel (serving id) net.channels;
    }
  ]
  | _ ↦ net
]

-- A serve loop that is told to stop drops its receiver.
unfoldable pub stop : ℕ → Network → Network
stop channel net = record net { channels = set_channel channel dropped net.channels }
