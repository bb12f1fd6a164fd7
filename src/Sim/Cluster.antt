-- ===== src/Sim/Cluster.antt =====
-- `SimCluster` of raft/sim_harness.rs. The heartbeat loops and the waits are left to the schedule; a
-- failed assertion is none.
pub mod Restarts
use oxide_kv.Common.{
  ℕ, zero, suc, ◌+◌, Bool, true, false, Option, none, some, List, [], ◌∷◌, ◌++◌, map, filter,
  length, get_elem?, not, leb, ◌||◌, if◌then◌else◌, ◌==◌, any,
}
use oxide_kv.Text.{Str, ◌=s◌}
use oxide_kv.Map
use oxide_kv.Map.{Map}
use oxide_kv.Protocol.{Command}
use oxide_kv.Lsm
use oxide_kv.Lsm.{StateMachine}
use oxide_kv.Storage.{RaftStorage}
use oxide_kv.Raft.{RaftNode, follower, is_leader, new_node}
use oxide_kv.Raft.Propose.{propose}
use oxide_kv.Rpc.{Clocks}
use oxide_kv.Sim.Faults.{FaultScheduler}
use oxide_kv.Sim.Network.{Network, with_scheduler, register, lookup}
use oxide_kv.Sim.Transport.{serve, stop}
use oxide_kv.Invariants.Printing.{text, decimal}

-- The ids of the nodes in order, and the network with the nodes behind it.
pub record SimCluster : Type 0 where
  pub ids : List Str
  pub network : Network

-- "n0", "n1", …
unfoldable pub ids_from : ℕ → ℕ → List Str
unfolding decimal
ids_from i zero = []
ids_from i (suc n) = (text "n" ++ decimal i) ∷ ids_from (i + 1) n

unfoldable pub register_all : List Str → Network → Network
unfolding register
register_all [] net = net
register_all (id ∷ ids) net = register_all ids (register id net).0

module _ (store : StateMachine) (storage : RaftStorage) where
  -- Each node with the others as its peers.
  unfoldable pub place_all : List Str → List Str → Network → Network
  unfolding new_node
  place_all all [] net = net
  place_all all (id ∷ ids) net = place_all all ids (record net {
    nodes = Map.insert id (new_node id (filter (λ p. not (p =s id)) all) store storage 0) net.nodes;
  })

  unfoldable pub serve_all : Clocks → ℕ → List Str → Network → Network
  unfolding serve
  serve_all c channel [] net = net
  serve_all c channel (id ∷ ids) net = serve_all c (channel + 1) ids (serve c id channel net)

  -- `new_n_nodes`, each node over an empty store and an empty storage of its own.
  unfoldable pub new_n_nodes : Clocks → ℕ → FaultScheduler → SimCluster
  unfolding ids_from register_all place_all serve_all with_scheduler
  new_n_nodes c n scheduler =
      let ids = ids_from 0 n in
      record {
        ids = ids;
        network =
            serve_all c 0 ids
              (place_all ids ids (register_all ids (with_scheduler 2000 scheduler)));
      }

abbrev pub node_at : ℕ → SimCluster → Option (Str × RaftNode)
node_at idx cluster = elim (get_elem? cluster.ids idx) [
  | none ↦ none
  | some id ↦ elim (Map.get id cluster.network.nodes) [ none ↦ none | some n ↦ some (id, n) ]
]

abbrev pub put_node : Str → RaftNode → SimCluster → SimCluster
put_node id n cluster = record cluster {
  network = record cluster.network { nodes = Map.insert id n cluster.network.nodes };
}

unfoldable pub leader_from : ℕ → List Str → Map RaftNode → Option ℕ
leader_from idx [] nodes = none
leader_from idx (id ∷ ids) nodes =
    let later = leader_from (idx + 1) ids nodes in
    elim (Map.get id nodes) [
      | none ↦ later
      | some n ↦ if is_leader n.state then some idx else later
    ]

unfoldable pub leader_index : SimCluster → Option ℕ
unfolding leader_from
leader_index cluster = leader_from 0 cluster.ids cluster.network.nodes

abbrev pub accepted : Str → ℕ → SimCluster → RaftNode × Bool → Option (SimCluster × ℕ)
accepted id new_index cluster (n, true) = some (put_node id n cluster, new_index)
accepted id new_index cluster (n, false) = none

unfoldable pub submit_command : ℕ → Command → SimCluster → Option (SimCluster × ℕ)
unfolding propose
submit_command leader_idx command cluster = elim (node_at leader_idx cluster) [
  | none ↦ none
  | some (id, n) ↦ accepted id (length n.log + 1) cluster (propose command n)
]

abbrev pub submit_set : ℕ → Str → Str → SimCluster → Option (SimCluster × ℕ)
submit_set leader_idx key value cluster = submit_command leader_idx (Command.set key value) cluster

unfoldable pub read : ℕ → Str → SimCluster → Option (Option Str)
read idx key cluster = elim (node_at idx cluster) [
  | none ↦ none
  | some (_, n) ↦ some (Lsm.get key n.state_machine)
]

unfoldable pub current_term : ℕ → SimCluster → Option ℕ
current_term idx cluster = elim (node_at idx cluster) [
  | none ↦ none
  | some (_, n) ↦ some n.current_term
]

-- The serve loop of a node stops at the channel that is registered for it.
abbrev pub stop_of : Str → Network → Network
stop_of id net = elim (lookup id net) [ none ↦ net | some channel ↦ stop channel net ]

unfoldable pub kill_node : ℕ → SimCluster → Option SimCluster
unfolding stop
kill_node idx cluster = elim (node_at idx cluster) [
  | none ↦ none
  | some (id, n) ↦
      let down = put_node id (record n { state = follower }) cluster in
      some (record down { network = stop_of id down.network })
]

unfoldable pub restart_node : Clocks → ℕ → SimCluster → Option SimCluster
unfolding stop register serve
restart_node c idx cluster = elim (node_at idx cluster) [
  | none ↦ none
  | some (id, n) ↦
      let (net, channel) = register id (stop_of id cluster.network) in
      some (record cluster { network = serve c id channel net })
]
