-- ===== src/Sim.antt =====
-- What raft/sim_transport.rs and raft/net.rs pass around. The texts of errors are left out.
pub mod Faults
pub mod Network
pub mod Transport
pub mod Delivery
pub mod Cluster
use oxide_kv.Common.{ℕ}
use oxide_kv.Raft.TxVote.{VoteRequest, VoteResponse}
use oxide_kv.Wire.{RaftMessage}

pub data TransportError : Type 0 where
  unreachable : TransportError
  timeout : ℕ → TransportError
  protocol : TransportError
  canceled : TransportError

pub data InboundMessageBody : Type 0 where
  raft : RaftMessage → InboundMessageBody
  vote : VoteRequest → InboundMessageBody
  vote_reply : VoteResponse → InboundMessageBody
