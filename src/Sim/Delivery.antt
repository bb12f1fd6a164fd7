-- ===== src/Sim/Delivery.antt =====
-- What the simulated network of raft/sim_transport.rs and raft/fault_scheduler.rs does to a message.
pub mod Twice
pub mod Late
use oxide_kv.Common.{
  ℕ, ◌+◌, ◌≡◌, ◌≢◌, refl, ap, sym, ◌∙◌, Bool, true, false, ◌&&◌, ◌||◌, Option, none, some, List, [],
  ◌∷◌, get_elem?, any, arith, if◌then◌else◌, Bool-cases, inl, inr,
}
use oxide_kv.Text.{Str, ◌=s◌, =s_iff}
use oxide_kv.Map
use oxide_kv.Raft.{RaftNode}
use oxide_kv.Raft.Propose.{Result, ok, err}
use oxide_kv.Wire.{RaftMessage}
use oxide_kv.Rpc.{Clocks, answer}
use oxide_kv.Sim.{TransportError, timeout, protocol, InboundMessageBody, raft}
use oxide_kv.Sim.Faults.{
  LinkId, same_link, ScheduleOutcome, deliver, delay, FaultScheduler, partitioned_network,
  partition, heal, before_send,
}
use oxide_kv.Sim.Network.{Network, Inbox, serving, lookup}
use oxide_kv.Sim.Transport.{
  dispatch_raft_message, serve_one, push_with_reply, transmit, exchange, send_raft, wrap,
}

abbrev pub dispatched : RaftNode × Option RaftMessage → RaftNode × Result TransportError RaftMessage
dispatched (n, some r) = (n, ok r)
dispatched (n, none) = (n, err protocol)

-- The simulated dispatch runs the handler that the server of raft/rpc.rs runs, with its reply, but
-- that it takes a join request for an error, as both do a reply.
pub dispatch_raft_message-answer :
    (c : Clocks) (m : RaftMessage) (n : RaftNode)
    → ((addr : Str) → m ≢ RaftMessage.join_cluster addr)
    → dispatch_raft_message c m n ≡ dispatched (answer c m n)
unfolding dispatch_raft_message answer
dispatch_raft_message-answer c (RaftMessage.request_vote a) n h = refl
dispatch_raft_message-answer c (RaftMessage.join_cluster addr) n h = absurd (h addr refl)
dispatch_raft_message-answer c _ n h = refl

same_link_sound : (a b : LinkId) → same_link a b ≡ true → a ≡ b
same_link_sound a b h = elim (Bool-cases (a.from =s b.from)) [
  | inr differ ↦ absurd (ground arith)
  | inl from ↦
      let i = (=s_iff a.from b.from).0 from in let j = (=s_iff a.to b.to).0 (ground arith) in cc
]

-- A link that is cut drops what is sent on it, in its direction only, until the network is healed;
-- then nothing is dropped.
pub partition-before_send :
    (cut link : LinkId) (links : List LinkId) (body : InboundMessageBody)
    → ((before_send (partition cut (partitioned_network links)) link body).1 ≡ (
        if same_link link cut
        then ScheduleOutcome.drop
        else (before_send (partitioned_network links) link body).1))
      × ((before_send (heal (partition cut (partitioned_network links))) link body).1 ≡ deliver)
unfolding before_send partition heal
partition-before_send cut link links body = elim (Bool-cases (any (same_link cut) links)) [
  | inr fresh ↦ (ground arith, refl)
  | inl known ↦ elim (Bool-cases (same_link link cut)) [
    | inr other ↦ (ground arith, refl)
    | inl same ↦
        let covered : any (same_link link) links ≡ true =
          ap (λ l. any (same_link l) links) (same_link_sound link cut same) ∙ known in
        (ground arith, refl)
  ]
]
