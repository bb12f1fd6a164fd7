-- ===== src/Raft/Apply.antt =====
-- `apply_logs`, `install_configuration` and `replay_logs` of raft/node.rs. `unix_now` is the wall
-- clock that `begin_tx` reads.
pub mod Frame
pub mod Progress
pub mod Drains
use oxide_kv.Common.{
  ℕ, zero, suc, ◌+◌, ◌-◌, Bool, true, false, ◌||◌, Option, none, some, List, [], ◌∷◌, ◌++◌, length,
  get_elem?, ltb, if◌then◌else◌,
}
use oxide_kv.Text.{Str, ◌=s◌}
use oxide_kv.Protocol.{
  ServerId, Configuration, simple, joint, Command, set, get, delete, compact, abort_tx, begin_tx,
  decide_tx, add_node, remove_node, install_configuration, LogEntry, all_servers,
}
use oxide_kv.Protocol.Equality.{same_servers}
use oxide_kv.Lsm
use oxide_kv.Lsm.{StateMachine}
use oxide_kv.Lsm.Tx
use oxide_kv.Storage.{append_wal_log}
use oxide_kv.Raft.{RaftNode, NodeState, is_leader, peers_of}

-- The effect of a committed command on the state machine; other commands have none.
unfoldable pub state_effect : ℕ → Command → StateMachine → StateMachine
state_effect unix_now (set key value) sm = Lsm.set key value sm
state_effect unix_now (delete key) sm = Lsm.delete key sm
state_effect unix_now (begin_tx tx_id ops) sm = Tx.begin_tx_at tx_id ops unix_now sm
state_effect unix_now (decide_tx tx_id decision) sm = Tx.decide_tx tx_id decision sm
state_effect unix_now (get key) sm = sm
state_effect unix_now compact sm = sm
state_effect unix_now (abort_tx tx_id) sm = sm
state_effect unix_now (add_node server) sm = sm
state_effect unix_now (remove_node node_id) sm = sm
state_effect unix_now (install_configuration config) sm = sm

-- `matches` of `install_configuration`: whether the pending configuration follows the installed one.
unfoldable pub follows : Configuration → Configuration → Bool
follows (joint old new) pending = same_servers new (all_servers pending)
follows (simple c) (simple servers) = same_servers c servers
follows (simple c) (joint old new) = false

-- An entry of the node's term at the end of the log, in memory and in the WAL.
unfoldable pub append_own : Command → RaftNode → RaftNode
unfolding append_wal_log
append_own command n =
    let entry : LogEntry = record {
      term = n.current_term;
      index = length n.log + 1;
      command = command;
    } in
    record n { storage = append_wal_log entry n.storage; log = n.log ++ entry ∷ [] }

-- Step 3 of `install_configuration`, on the leader, with the configuration taken from
-- `pending_post_joint_simple`.
unfoldable pub propose_pending : Configuration → Option Configuration → RaftNode → RaftNode
unfolding append_own follows
propose_pending config none n = n
propose_pending config (some simple_new) n =
    let taken = record n { pending_post_joint_simple = none } in
    if follows config simple_new then append_own (install_configuration simple_new) taken else taken

unfoldable pub install_config : Configuration → RaftNode → RaftNode
unfolding propose_pending peers_of
install_config config n =
    let installed = record n { current_config = config; peers = peers_of n.node_id config } in
    if is_leader n.state
    then propose_pending config n.pending_post_joint_simple installed
    else installed

-- The body of the loop for one command.
unfoldable pub apply_command : ℕ → Command → RaftNode → RaftNode
unfolding install_config state_effect
apply_command unix_now (install_configuration config) n = install_config config n
apply_command unix_now cmd n = record n {
  state_machine = state_effect unix_now cmd n.state_machine;
}

-- The `while` loop; every round applies one entry or ends it.
unfoldable pub apply_loop : ℕ → ℕ → RaftNode → RaftNode
unfolding apply_command
apply_loop zero unix_now n = n
apply_loop (suc fuel) unix_now n =
    if ltb n.last_applied n.commit_index
    then elim (get_elem? n.log n.last_applied) [
      | none ↦ n
      | some e ↦
          let applied = apply_command unix_now e.command n in
          apply_loop fuel unix_now (record applied { last_applied = applied.last_applied + 1 })
    ]
    else n

unfoldable pub apply_logs : ℕ → RaftNode → RaftNode
unfolding apply_loop
apply_logs unix_now n = apply_loop (n.commit_index - n.last_applied) unix_now n

-- The effect of an entry in `replay_logs`: no second phase is proposed.
unfoldable pub replay_command : ℕ → Command → RaftNode → RaftNode
unfolding peers_of state_effect
replay_command unix_now (install_configuration config) n = record n {
  current_config = config;
  peers = peers_of n.node_id config;
}
replay_command unix_now cmd n = record n {
  state_machine = state_effect unix_now cmd n.state_machine;
}

unfoldable pub replay_entries : ℕ → List LogEntry → RaftNode → RaftNode
unfolding replay_command
replay_entries unix_now [] n = n
replay_entries unix_now (e ∷ es) n =
    replay_entries unix_now es (replay_command unix_now e.command n)

unfoldable pub replay_logs : ℕ → RaftNode → RaftNode
unfolding replay_entries
replay_logs unix_now n =
    let replayed = replay_entries unix_now n.log n in
    record replayed { last_applied = length n.log }
