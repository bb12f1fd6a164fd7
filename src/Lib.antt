-- ===== src/Lib.antt =====
-- oxide-kv: a replicated key-value store. Every node runs Raft (rust/oxide-kv/src/raft/node.rs)
-- over a write-ahead log, a term-and-vote file and a snapshot file
-- (rust/oxide-kv/src/raft/storage.rs), and applies the committed commands
-- (rust/oxide-kv/src/protocol.rs) to a log-structured merge store with staged two-phase-commit
-- transactions (rust/oxide-kv/src/state_machine.rs). Clients send commands to the node that leads
-- (rust/oxide-kv/src/client.rs), which runs transactions over several nodes through a coordinator
-- (rust/oxide-kv/src/raft/coordinator.rs). Nodes exchange protobuf messages in frames
-- (rust/oxide-kv/src/raft/rpc.rs). A simulation replaces the network by one with faults
-- (rust/oxide-kv/src/raft/sim_transport.rs) and checks a cluster against a sequential model
-- (rust/oxide-kv/src/raft/reference_model.rs).
--
-- Files and code:
--   Common, Text, Map: native numbers and their Boolean tests, lists, strings in byte order, and
--   the maps of the standard library as association lists in key order.
--   Protocol, Protocol/Equality, Protocol/Quorum: rust/oxide-kv/src/protocol.rs, its types, their
--   derived equality and `config_quorum_reached_index`. `Equality/Sound` is on that equality,
--   `Search` on the binary search, `Overlap` on majorities.
--   Lsm: rust/oxide-kv/src/state_machine.rs. `StateMachine` is its record, with the disk as a
--   field: `Lsm` has `set`, `delete`, `flush`, `get`, `snapshot_data`, `install_snapshot`,
--   `clear_for_snapshot`; `Lsm/Disk` the files; `Lsm/Tx` the transactions; `Lsm/Compaction`
--   `compact`; `Lsm/Recovery` `open`. `Lsm/View` is the abstract store (a key has the value of its
--   newest row) and the invariant; `Writes`, `Scan`, `Reads`, `Snapshots`, `Compaction/Keeps`,
--   `Tx/Atomic` and `Recovery/*` relate the operations to it.
--   Storage: rust/oxide-kv/src/raft/storage.rs.
--   Raft: rust/oxide-kv/src/raft/node.rs, the record `RaftNode` and its start. `Apply` has
--   `apply_logs`, `install_configuration` and `replay_logs`; `Election` the votes and pre-votes;
--   `Append` `handle_append_entries`; `Replicate` `sync_logs` and `maybe_commit`; `Propose` the
--   proposals and `handle_join_cluster`; `Snapshots` `handle_install_snapshot` and
--   `maybe_snapshot`; `TxVote` `handle_tx_vote_request`; `Reads` `begin_read`, `confirm_read` and
--   rust/oxide-kv/src/raft/timer.rs's `should_start_election`. `Votes` and `Ballot` are on terms
--   and votes over any history of a node.
--   Visits: a task that shares a node with others, as a small monad over the list of its visits to
--   the node, with polling loops and timeouts; `Polls`, `Steps` and `Later` are on how such a task
--   ends and what it leaves.
--   Coordinator: the tally and the decision of `coordinate_tx_inner`,
--   rust/oxide-kv/src/raft/coordinator.rs; `Coordinator/Rounds` is the whole of `coordinate_tx`
--   and the sweep of `run_tx_timeout_loop`; `Tally`, `Commits`, `Replication`,
--   `Votes` and `Outcome` are on what it reports.
--   Client: rust/oxide-kv/src/client.rs; `Client/Waits` and `Client/Reads` are on reads,
--   `Client/Refusals` on a node that does not lead.
--   Sdk: the client library, rust/oxide-kv-client/src/client.rs and transaction.rs, with a server at
--   the other end; `Sdk/Reads` is on its reads, `Sdk/Commits` on its transactions.
--   Wire: `RaftMessage` of rust/oxide-kv/src/raft/rpc.rs and the messages of
--   rust/oxide-kv/proto/raft.proto; `Encode` and `Decode` are the conversions of
--   rust/oxide-kv/src/raft/proto.rs. Frame: the frames of rust/oxide-kv/src/raft/transport.rs.
--   Rpc: `RpcClient` and `RpcServer` of rust/oxide-kv/src/raft/rpc.rs, with the conversions of
--   rust/oxide-kv/src/coordination.rs; `Exchange` and `Votes` compare a call with the handler run
--   in place.
--   Sim: `Faults` is rust/oxide-kv/src/raft/fault_scheduler.rs, `Network` and `Transport`
--   rust/oxide-kv/src/raft/sim_transport.rs; `Delivery` is on what becomes of a message.
--   `Cluster` is rust/oxide-kv/src/raft/sim_harness.rs, and `Cluster/Restarts` on a node of it that
--   is killed and restarted.
--   Reference: rust/oxide-kv/src/raft/reference_model.rs; `Reference/Refines` and
--   `Raft/Apply/Drains` relate it to the state machine and to a node.
--   Timers: rounds of `run_election_timer`, rust/oxide-kv/src/raft/timer.rs, and of
--   `run_heartbeat_loop`; `Stuck` is on the election timer of a node that is a candidate.
--   Invariants: `check_election_safety`, `check_log_matching_property` and
--   `check_state_machine_safety`, rust/oxide-kv/src/raft/invariants.rs, with
--   `check_committed_entry_durability` in `Durability` and `check_2pc_atomicity` in `Atomicity`;
--   `Leaders`, `Pairs`, `Durability/Alike` and `Atomicity/Outcomes` have what they say of a
--   cluster.
--   Tests: runs, and the theorems at concrete inputs.
--
-- How the code is modelled. A method on `&mut self` is a function that returns the new record; a
-- task that takes the node's lock once is one such step, so a round of requests is its start and
-- the replies in the order in which they come. In `become_pre_candidate` and `sync_logs` no other
-- step runs between their locks. Clocks are arguments, in milliseconds. Writes to the disk succeed
-- and a read of a missing file fails. The reason texts of replies are tags. A string is its bytes.
-- What is read of a `HashMap` does not depend on its order, so it is a sorted association list
-- too. `u64` sums that would need 2^64 entries are not wrapped; `entry.index - 1` is, and the
-- theorems on AppendEntries bound the indices. `usize` subtraction that the code guards is that of
-- ℕ.
--
-- Fuel. `apply_loop` and `drain_loop` run on the number of entries still to apply, and
-- `search_highest` on the length of the log; that this is enough is part of the theorems on them.
-- `decimal` runs on the number that it prints, and `Invariants/Printing/Decimal` reads it back. The
-- loops that wait run on the list of visits; a task whose visits run out has no result.
--
-- The answers of the peers in `Coordinator/Rounds` are an argument; every lock that a round takes, for
-- each vote it records among them, is a visit of its own. In `Sim/Transport` a message that is pushed
-- to a node that serves is handled at once, and `meanwhile` is what other tasks do in a sleep.
--
-- Not modelled: JSON and bincode (the encoded size of an entry is a parameter of `Storage` and
-- `Raft/Snapshots`), the bytes of a protobuf message (a parameter of `Rpc`; reading is assumed to
-- undo writing where a theorem says so), sockets and their timeouts, the clocks, metrics and
-- tracing, the configuration and the start of the process, the waits of the simulation harness, the
-- printing of violations, and the connections and the error texts of the client library.
pub mod Common
pub mod Text
pub mod Map
pub mod Protocol
pub mod Lsm
pub mod Storage
pub mod Raft
pub mod Reference
pub mod Coordinator
pub mod Invariants
pub mod Wire
pub mod Frame
pub mod Rpc
pub mod Sim
pub mod Visits
pub mod Timers
pub mod Client
pub mod Sdk
pub mod Tests
