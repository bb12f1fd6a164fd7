-- ===== src/Sim/Network.antt =====
-- `Network` of raft/sim_transport.rs, with the nodes behind it.
use oxide_kv.Common.{ℕ, Option, List, [], ◌∷◌, ◌++◌, length}
use oxide_kv.Text.{Str}
use oxide_kv.Map
use oxide_kv.Map.{Map}
use oxide_kv.Raft.{RaftNode}
use oxide_kv.Sim.{InboundMessageBody}
use oxide_kv.Sim.Faults.{FaultScheduler, always_deliver}

-- The receiving end of a channel: no serve loop yet, with what is queued; read by the serve loop of
-- a node; gone.
pub data Inbox : Type 0 where
  waiting : List InboundMessageBody → Inbox
  serving : Str → Inbox
  dropped : Inbox

-- A duplicate that is on its way: when, into which channel, and what.
pub record Pending : Type 0 where
  pub due : ℕ
  pub channel : ℕ
  pub body : InboundMessageBody

-- The network with the nodes behind it. Channels are numbered in the order they are made.
pub record Network : Type 0 where
  pub peers : Map ℕ
  pub channels : List Inbox
  pub rpc_timeout : ℕ
  pub scheduler : FaultScheduler
  pub nodes : Map RaftNode
  pub elapsed : ℕ
  pub duplicates : List Pending

abbrev pub inbound_capacity : ℕ
inbound_capacity = 256

unfoldable pub with_scheduler : ℕ → FaultScheduler → Network
with_scheduler rpc_timeout scheduler = record {
  peers = [];
  channels = [];
  rpc_timeout = rpc_timeout;
  scheduler = scheduler;
  nodes = [];
  elapsed = 0;
  duplicates = [];
}

unfoldable pub with_rpc_timeout : ℕ → Network
unfolding with_scheduler
with_rpc_timeout rpc_timeout = with_scheduler rpc_timeout always_deliver

-- `register`, and `re_register` of a name that is there.
unfoldable pub register : Str → Network → Network × ℕ
register node_id net = (
  record net {
    peers = Map.insert node_id (length net.channels) net.peers;
    channels = net.channels ++ waiting [] ∷ [];
  },
  length net.channels,
)

-- `lookup`
abbrev pub lookup : Str → Network → Option ℕ
lookup to net = Map.get to net.peers

abbrev pub set_channel : ℕ → Inbox → List Inbox → List Inbox
set_channel i x [] = []
set_channel ℕ.zero x (y ∷ ys) = x ∷ ys
set_channel (ℕ.suc i) x (y ∷ ys) = y ∷ set_channel i x ys
