-- ===== src/Sim/Delivery/Late.antt =====
-- A message that the simulated network delays, raft/sim_transport.rs.
use oxide_kv.Common.{ℕ, ◌+◌, ◌≡◌, ◌∙◌, refl, ap, true, some, get_elem?, arith, ltb}
use oxide_kv.Text.{Str}
use oxide_kv.Map
use oxide_kv.Raft.{RaftNode}
use oxide_kv.Raft.Propose.{Result, ok, err}
use oxide_kv.Wire.{RaftMessage}
use oxide_kv.Rpc.{Clocks}
use oxide_kv.Sim.{TransportError, InboundMessageBody, raft}
use oxide_kv.Sim.Faults.{Rng, draw, LinkId, delay, FaultScheduler, random_delay, before_send}
use oxide_kv.Sim.Network.{Network, serving, lookup}
use oxide_kv.Sim.Transport.{
  dispatch_raft_message, serve_one, push_with_reply, transmit, exchange, send_raft, wrap,
  raft_reply,
}

-- The network once a delayed message is handled: the delay has passed, whatever the timeout, and a
-- sample is drawn.
abbrev pub late : Clocks → ℕ → Str → FaultScheduler → RaftMessage → RaftNode → Network → Network
late c d id scheduler msg n net = record net {
  scheduler = scheduler;
  nodes = Map.insert id (dispatch_raft_message c msg n).0 net.nodes;
  elapsed = net.elapsed + d;
}

raft_reply-wrap : (r : Result TransportError RaftMessage) → raft_reply (wrap r) ≡ r
raft_reply-wrap (ok m) = refl
raft_reply-wrap (err e) = refl

decided :
    (rng : Rng) (p_delay d : ℕ) (link : LinkId) (body : InboundMessageBody)
    → ltb (rng.sample rng.drawn) p_delay ≡ true
    → before_send (random_delay rng p_delay d) link body
      ≡ (random_delay (draw rng) p_delay d, delay d)
unfolding before_send
decided rng p_delay d link body slow = ground arith

-- A message that the scheduler delays is handled by the receiver after the delay, and the sender
-- gets the reply then, however much longer than the timeout of the network the delay is.
pub send_raft-late :
    (c : Clocks) (from to id : Str) (rng : Rng) (p_delay d channel : ℕ) (msg : RaftMessage)
    (net : Network) (n : RaftNode)
    → net.scheduler ≡ random_delay rng p_delay d
    → ltb (rng.sample rng.drawn) p_delay ≡ true
    → lookup to net ≡ some channel
    → get_elem? net.channels channel ≡ some (serving id)
    → Map.get id net.nodes ≡ some n
    → send_raft c (λ x. x) from to msg net ≡ (
      late c d id (random_delay (draw rng) p_delay d) msg n net,
      (dispatch_raft_message c msg n).1,
    )
unfolding send_raft exchange transmit push_with_reply serve_one
send_raft-late c from to id rng p_delay d channel msg net n scheduler slow known served there =
    let outcome : before_send net.scheduler (record { from = from; to = to }) (raft msg)
        ≡ (random_delay (draw rng) p_delay d, delay d) =
      ap (λ s. before_send s (record { from = from; to = to }) (raft msg)) scheduler
      ∙ decided rng p_delay d (record { from = from; to = to }) (raft msg) slow in
    ground (arith, known, outcome, served, there, raft_reply-wrap (dispatch_raft_message c msg n).1)
