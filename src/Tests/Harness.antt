-- ===== src/Tests/Harness.antt =====
-- A simulated cluster that is started, and a node of it that is killed and restarted.
use oxide_kv.Common.{◌≡◌, refl, some, none, [], ◌∷◌}
use oxide_kv.Text.{cmp}
use oxide_kv.Map
use oxide_kv.Raft.{RaftNode, new_node, leader}
use oxide_kv.Rpc.{Clocks}
use oxide_kv.Wire.{RaftMessage}
use oxide_kv.Sim.Faults.{duplicate_all}
use oxide_kv.Sim.Network.{register, with_scheduler}
use oxide_kv.Sim.Transport.{serve, serve_queue}
use oxide_kv.Sim.Cluster.{
  SimCluster, new_n_nodes, ids_from, register_all, place_all, serve_all, put_node, leader_index,
  leader_from,
}
use oxide_kv.Sim.Cluster.Restarts.{IsServed, Restarted, kill_node-restart_node}
use oxide_kv.Invariants.Printing.{text, decimal, digits}
use oxide_kv.Tests.Store.{empty_store}
use oxide_kv.Tests.Consensus.{empty_storage}
use oxide_kv.Tests.Log.{replace}

program : Unit {0}
unfolding Map.get Map.insert cmp new_node register with_scheduler serve serve_queue new_n_nodes
    ids_from register_all place_all serve_all leader_index leader_from decimal digits
program = tt

abbrev clocks : Clocks
clocks = record { now = 5; unix_now = 0 }

-- Two nodes behind a network that duplicates every message.
abbrev cluster : SimCluster
cluster = new_n_nodes (empty_store 1000) empty_storage clocks 2 (duplicate_all 3)

abbrev second : RaftNode
second = new_node (text "n1") (text "n0" ∷ []) (empty_store 1000) empty_storage 0

no_leader : leader_index cluster ≡ none
unfolding program
no_leader = refl

second_leads :
    leader_index (put_node (text "n1") (record second { state = leader }) cluster) ≡ some 1
unfolding program
second_leads = refl

second-IsServed : IsServed 1 1 (text "n1") second cluster
unfolding program
second-IsServed = record { indexed = refl; known = refl; registered = refl; serves = refl }

kill_node-restart_node_example :
    Restarted clocks 1 (text "n1") (text "n0") (RaftMessage.append_entries replace) second cluster
kill_node-restart_node_example =
    kill_node-restart_node clocks 1 1 (text "n1") (text "n0") (RaftMessage.append_entries replace)
      second cluster second-IsServed
