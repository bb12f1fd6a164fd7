-- ===== src/Sim/Cluster/Restarts.antt =====
-- A node that the harness of raft/sim_harness.rs kills and restarts.
use oxide_kv.Common.{ℕ, zero, suc, ◌≡◌, refl, some, List, [], ◌∷◌, ◌++◌, length, get_elem?, arith}
use oxide_kv.Text.{Str}
use oxide_kv.Map
use oxide_kv.Map.Laws.{get-insert_self}
use oxide_kv.Raft.{RaftNode, follower}
use oxide_kv.Raft.Propose.{Result, err}
use oxide_kv.Wire.{RaftMessage}
use oxide_kv.Rpc.{Clocks}
use oxide_kv.Sim.{TransportError, unreachable, timeout, raft}
use oxide_kv.Sim.Faults.{ScheduleOutcome, deliver, delay, duplicate, FaultScheduler, before_send}
use oxide_kv.Sim.Network.{Network, Inbox, waiting, serving, dropped, lookup, set_channel, register}
use oxide_kv.Sim.Transport.{
  push_with_reply, transmit, exchange, send_raft, stop, serve, serve_queue,
}
use oxide_kv.Sim.Cluster.{SimCluster, kill_node, restart_node}

get_elem?-set_channel :
    (i : ℕ) (x y : Inbox) (channels : List Inbox)
    → get_elem? channels i ≡ some y
    → get_elem? (set_channel i x channels) i ≡ some x
get_elem?-set_channel i x y [] h = absurd (cc)
get_elem?-set_channel zero x y (z ∷ channels) h = refl
get_elem?-set_channel (suc i) x y (z ∷ channels) h = get_elem?-set_channel i x y channels h

-- What a send to a closed channel leaves and answers.
pub record Lost (net after : Network) (answered : Result TransportError RaftMessage) : Type 0 where
  pub untouched : after.nodes ≡ net.nodes
  pub reason : TransportError
  pub failed : answered ≡ err reason

closed-Lost :
    (c : Clocks) (from to : Str) (msg : RaftMessage) (channel : ℕ) (net : Network)
    → lookup to net ≡ some channel
    → get_elem? net.channels channel ≡ some dropped
    → Lost net (send_raft c (λ x. x) from to msg net).0 (send_raft c (λ x. x) from to msg net).1
unfolding send_raft exchange transmit push_with_reply
closed-Lost c from to msg channel net known gone =
    by_outcome (before_send net.scheduler (record { from = from; to = to }) (raft msg)) refl
  where
    by_outcome :
        (o : FaultScheduler × ScheduleOutcome)
        → before_send net.scheduler (record { from = from; to = to }) (raft msg) ≡ o
        → Lost net (send_raft c (λ x. x) from to msg net).0 (send_raft c (λ x. x) from to msg net).1
    by_outcome (s, ScheduleOutcome.drop) e = record {
      untouched = ground (arith, known, e);
      reason = timeout net.rpc_timeout;
      failed = ground (arith, known, e);
    }
    by_outcome (s, delay d) e = record {
      untouched = ground (arith, known, e, gone);
      reason = unreachable;
      failed = ground (arith, known, e, gone);
    }
    by_outcome (s, duplicate d) e = record {
      untouched = ground (arith, known, e, gone);
      reason = unreachable;
      failed = ground (arith, known, e, gone);
    }
    by_outcome (s, deliver) e = record {
      untouched = ground (arith, known, e, gone);
      reason = unreachable;
      failed = ground (arith, known, e, gone);
    }

-- The node of an index, and the channel that its serve loop reads.
pub record IsServed (idx channel : ℕ) (id : Str) (n : RaftNode) (cluster : SimCluster)
    : Type 0 where
  pub indexed : get_elem? cluster.ids idx ≡ some id
  pub known : Map.get id cluster.network.nodes ≡ some n
  pub registered : lookup id cluster.network ≡ some channel
  pub serves : get_elem? cluster.network.channels channel ≡ some (serving id)

-- After the kill: the node is there and follows, and its channel is closed.
abbrev down : ℕ → Str → RaftNode → SimCluster → SimCluster
down channel id n cluster = record cluster {
  network = record cluster.network {
    nodes = Map.insert id (record n { state = follower }) cluster.network.nodes;
    channels = set_channel channel dropped cluster.network.channels;
  };
}

kill_node_lem :
    (idx channel : ℕ) (id : Str) (n : RaftNode) (cluster : SimCluster)
    → IsServed idx channel id n cluster
    → kill_node idx cluster ≡ some (down channel id n cluster)
unfolding kill_node
kill_node_lem idx channel id n cluster s = ground (arith, s.indexed, s.known, s.registered)

get_elem?-append {ℓ} :
    {A : Type ℓ} (xs : List A) (y : A) → get_elem? (xs ++ y ∷ []) (length xs) ≡ some y
get_elem?-append [] y = refl
get_elem?-append (x ∷ xs) y = get_elem?-append xs y

-- A restart of a node that serves no more.
module _ (c : Clocks) (idx channel : ℕ) (id : Str) (n : RaftNode) (cluster : SimCluster)
    (indexed : get_elem? cluster.ids idx ≡ some id)
    (known : Map.get id cluster.network.nodes ≡ some n)
    (registered : lookup id cluster.network ≡ some channel) where
  abbrev old_channels : List Inbox
  old_channels = set_channel channel dropped cluster.network.channels

  abbrev up : SimCluster
  up = record cluster {
    network = record cluster.network {
      peers = Map.insert id (length old_channels) cluster.network.peers;
      channels = set_channel (length old_channels) (serving id) (old_channels ++ waiting [] ∷ []);
      nodes = Map.insert id n cluster.network.nodes;
    };
  }

  restart_node_lem : restart_node c idx cluster ≡ some up
  unfolding restart_node stop register serve serve_queue
  restart_node_lem =
      let fresh = get_elem?-append old_channels (waiting []) in
      ground (arith, indexed, known, registered, fresh)

  up-IsServed : IsServed idx (length old_channels) id n up
  up-IsServed = record {
    indexed = indexed;
    known = get-insert_self id n cluster.network.nodes;
    registered = get-insert_self id (length old_channels) cluster.network.peers;
    serves =
        get_elem?-set_channel (length old_channels) (serving id) (waiting [])
          (old_channels ++ waiting [] ∷ []) (get_elem?-append old_channels (waiting []));
  }

-- A node that is killed and restarted.
pub record Restarted (c : Clocks) (idx : ℕ) (id from : Str) (msg : RaftMessage) (n : RaftNode)
    (cluster : SimCluster) : Type 0 where
  pub killed : SimCluster
  pub kills : kill_node idx cluster ≡ some killed
  pub lost :
      Lost killed.network
        (send_raft c (λ x. x) from id msg killed.network).0
        (send_raft c (λ x. x) from id msg killed.network).1
  pub channel : ℕ
  pub restarted : SimCluster
  pub restarts : restart_node c idx killed ≡ some restarted
  pub serves : IsServed idx channel id (record n { state = follower }) restarted

-- Once a node that serves is killed, a message to it fails, whatever the scheduler decides, and
-- changes no node; once it is then restarted, it serves again, on a channel that is registered for
-- it, in the state that it had but as a follower.
pub kill_node-restart_node :
    (c : Clocks) (idx channel : ℕ) (id from : Str) (msg : RaftMessage) (n : RaftNode)
    (cluster : SimCluster)
    → IsServed idx channel id n cluster
    → Restarted c idx id from msg n cluster
kill_node-restart_node c idx channel id from msg n cluster s =
    let killed : SimCluster = down channel id n cluster in
    let m : RaftNode = record n { state = follower } in
    let known : Map.get id killed.network.nodes ≡ some m =
      get-insert_self id m cluster.network.nodes in
    record {
      killed = killed;
      kills = kill_node_lem idx channel id n cluster s;
      lost =
          closed-Lost c from id msg channel killed.network s.registered
            (get_elem?-set_channel channel dropped (serving id) cluster.network.channels s.serves);
      channel = length (old_channels c idx channel id m killed s.indexed known s.registered);
      restarted = up c idx channel id m killed s.indexed known s.registered;
      restarts = restart_node_lem c idx channel id m killed s.indexed known s.registered;
      serves = up-IsServed c idx channel id m killed s.indexed known s.registered;
    }
